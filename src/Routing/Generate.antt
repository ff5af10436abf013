-- ===== src/Routing/Generate.antt =====
-- What the configuration generator asks of a routing profile (src/database/entities/RouteProfile.cpp).
pub mod RouteRules
pub mod Outbounds
use free_link_app.Common.{
  ℤ, String, String_eq, ℤ_eq, Bool, true, false, not, ◌&&◌, ◌||◌, Option, none, some, List, [], ◌∷◌,
  ◌++◌, map, Eq, ◌==◌, if◌then◌else◌, keep, ◌<>◌,
}
use free_link_app.Qt.{Qt}
use free_link_app.Text.{starts_with}
use free_link_app.Json.{
  Json, str, arr, Items, cons, nil, Fields, end, field, is_empty_object, text_at,
}
use free_link_app.Routing.RuleType.{is_custom, proxy_id, direct_id}
use free_link_app.Routing.Rule.{RouteRule}
use free_link_app.Routing.Rule.Values.{is_blank}
use free_link_app.Routing.Profiles.{Profiles}
use free_link_app.Routing.RuleJson.{get_rule_json, is_empty_rule}
use free_link_app.Routing.Raw.{collect_raw_outbound_ids}
use free_link_app.Routing.Profile.{RouteProfile}

-- createAdblockRule
abbrev pub adblock_rule : Fields
adblock_rule =
    field "action" (str "reject")
      (field "rule_set" (arr (cons (str "freelink-adblocksingbox") nil)) end)

-- outboundMap[item->outboundID], or the empty text
abbrev pub outbound_tag : (ℤ → Option String) → ℤ → String
outbound_tag tags id = elim (tags id) [ none ↦ "" | some t ↦ t ]

-- The rules as they are left, and the JSON, `none` where the section was aborted.
abbrev pub Generated : Type 0
Generated = List RouteRule × Option (List Fields)

abbrev pub map_json : (List Fields → List Fields) → Option (List Fields) → Option (List Fields)
map_json f none = none
map_json f (some js) = some (f js)

-- The end of one round: the rule `r` is skipped, aborts the section with its JSON missing, or puts out
-- its JSON, behind the adblock rule where that is due.
unfoldable pub put_rule :
    RouteRule → RouteRule → Fields → Bool → Bool → List RouteRule → Generated → Generated
put_rule r s json skip ads rs rest =
    if skip
    then (r ∷ rest.0, rest.1)
    else if is_empty_object json
    then (s ∷ rs, none)
    else (s ∷ rest.0, map_json (λ js. if ads then adblock_rule ∷ json ∷ js else json ∷ js) rest.1)

-- item->type != custom && item->isEmpty()
abbrev pub skips : Qt → Profiles → RouteRule → Bool
skips q p r = not (is_custom r.rule_type) && (is_empty_rule q p r).1

abbrev pub rule_json : Qt → Profiles → Bool → (ℤ → Option String) → RouteRule → RouteRule × Fields
rule_json q p for_view tags r = get_rule_json q p for_view (outbound_tag tags r.outbound_id) r

-- !added_adblock && adblock_enable && rule_json["action"] == "route"
abbrev pub adds_adblock : Bool → Bool → Fields → Bool
adds_adblock adblock_enable added json =
    not added && (adblock_enable && text_at "action" json == "route")

-- The loop of get_route_rules.
unfoldable pub route_rules_from :
    Qt → Profiles → Bool → (ℤ → Option String) → Bool → List RouteRule → Bool → Generated
unfolding put_rule
route_rules_from q p for_view tags adblock_enable [] added =
    ([], some (if not added && adblock_enable then adblock_rule ∷ [] else []))
route_rules_from q p for_view tags adblock_enable (r ∷ rs) added =
    let (s, json) = rule_json q p for_view tags r in
    let ads = adds_adblock adblock_enable added json in
    let rest =
      route_rules_from q p for_view tags adblock_enable rs
        (if skips q p r then added else added || ads) in
    put_rule r s json (skips q p r) ads rs rest

-- get_route_rules: an aborted section is empty.
unfoldable pub get_route_rules :
    Qt
    → Profiles
    → Bool
    → (ℤ → Option String)
    → Bool
    → List RouteRule
    → List RouteRule × List Fields
unfolding route_rules_from
get_route_rules q p for_view tags adblock_enable rules =
    let (rs, out) = route_rules_from q p for_view tags adblock_enable rules false in
    (rs, elim out [ none ↦ [] | some js ↦ js ])

-- get_used_outbounds; `route_of` reads the text of a raw route.
unfoldable pub get_used_outbounds : (String → Fields) → RouteProfile → List ℤ
get_used_outbounds route_of c =
    if c.is_raw
    then collect_raw_outbound_ids (route_of c.raw_route)
    else map (λ (r : RouteRule). r.outbound_id) c.rules

-- get_used_rule_sets
unfoldable pub get_used_rule_sets : List RouteRule → List String
get_used_rule_sets [] = []
get_used_rule_sets (r ∷ rs) = r.rule_set ++ get_used_rule_sets rs

abbrev prefixed : String → List String → List String
prefixed label v = map (λ s. label <> s) v

abbrev routes_to : ℤ → RouteRule → Bool
routes_to id r = r.outbound_id == id && r.action == "route"

-- The loop that get_direct_sites and get_proxy_sites share but for the outbound.
unfoldable pub sites_of : ℤ → List RouteRule → List String
sites_of id [] = []
sites_of id (r ∷ rs) =
    let rest = sites_of id rs in
    if routes_to id r
    then prefixed "ruleset:" (keep (λ s. starts_with s "geosite-") r.rule_set)
      ++ (prefixed "domain:" r.domain
          ++ (prefixed "suffix:" r.domain_suffix
              ++ (prefixed "keyword:" r.domain_keyword
                  ++ (prefixed "regex:" r.domain_regex ++ rest))))
    else rest

unfoldable pub get_direct_sites : List RouteRule → List String
unfolding sites_of
get_direct_sites rules = sites_of direct_id rules

unfoldable pub get_proxy_sites : List RouteRule → List String
unfolding sites_of
get_proxy_sites rules = sites_of proxy_id rules

unfoldable pub get_direct_ips : List RouteRule → List String
get_direct_ips [] = []
get_direct_ips (r ∷ rs) =
    let rest = get_direct_ips rs in
    if routes_to direct_id r
    then prefixed "ruleset:" (keep (λ s. starts_with s "geoip-") r.rule_set)
      ++ (prefixed "ip:" r.ip_cidr ++ rest)
    else rest

-- The loop of IsEmpty, with the rules as isEmpty leaves them.
unfoldable pub all_empty : Qt → Profiles → List RouteRule → List RouteRule × Bool
all_empty q p [] = ([], true)
all_empty q p (r ∷ rs) =
    let (s, empty) = is_empty_rule q p r in
    let rest = all_empty q p rs in if not empty then (s ∷ rs, false) else (s ∷ rest.0, rest.1)

-- IsEmpty
unfoldable pub is_empty_profile : Qt → Profiles → RouteProfile → RouteProfile × Bool
unfolding all_empty
is_empty_profile q p c =
    if c.is_raw
    then (c, is_blank q c.raw_route)
    else let (rs, empty) = all_empty q p c.rules in (record c { rules = rs }, empty)
