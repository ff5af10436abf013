-- ===== src/Routing/RuleJson.antt =====
-- `get_rule_json`, `isEmpty` and `to_share_json` of src/database/entities/RouteRule.cpp.
pub mod Entries
pub mod Emptiness
use free_link_app.Common.{
  ℤ, pos, String, String_eq, ℤ_eq, Bool, true, false, not, ◌&&◌, ◌||◌, Option, none, some, List, [],
  ◌∷◌, ◌++◌, map, Eq, ◌==◌, if◌then◌else◌, is_empty, leb, ltb, ◌<>◌,
}
use free_link_app.Qt.{Qt}
use free_link_app.Json.{
  Json, bool, num, str, arr, Fields, end, set_key, count_keys, is_empty_object, to_items,
}
use free_link_app.Routing.RuleType.{
  proxy_id, direct_id, block_id, dns_id, is_custom, is_address, rule_type_to_token,
}
use free_link_app.Routing.Rule.{RouteRule}
use free_link_app.Routing.Rule.Values.{is_valid_str_array}
use free_link_app.Routing.Rule.Tabs.{is_positive}
use free_link_app.Routing.Profiles.{Profiles}

-- One `if (…) obj["…"] = …;`
abbrev pub Entry : Type 0
Entry = Bool × String × Json

abbrev pub put_entry : Entry → Fields → Fields
put_entry (c, k, v) o = if c then set_key k v o else o

unfoldable pub put_entries : List Entry → Fields → Fields
put_entries [] o = o
put_entries (e ∷ es) o = put_entries es (put_entry e o)

abbrev pub routes : String → Bool
routes action = action == "route" || action == "bypass"

abbrev pub takes_override : String → Bool
takes_override action = action == "route" || (action == "route-options" || action == "bypass")

module _ (q : Qt) where
  open q use {to_int}

  -- get_rule_set_name of RouteRule.h
  unfoldable pub get_rule_set_name : String → String
  get_rule_set_name s = elim (q.url_file_name s) [
    | none ↦ s
    | some file ↦
        if q.text_contains file ".srs"
        then q.replace file ".srs" "-srs" <> ("-" <> q.url_hash s)
        else s
  ]

  abbrev pub text_array : List String → Json
  text_array v = arr (to_items (map str v))

  abbrev pub number_array : List String → Json
  number_array v = arr (to_items (map (λ s. num (to_int s)) v))

  abbrev pub texts_entry : String → List String → Entry
  texts_entry k v = (is_valid_str_array q v, k, text_array v)

  abbrev pub numbers_entry : String → List String → Entry
  numbers_entry k v = (is_valid_str_array q v, k, number_array v)

  abbrev pub text_entry : String → String → Entry
  text_entry k s = (not (s == ""), k, str s)

  abbrev pub flag_entry : String → Bool → Entry
  flag_entry k b = (b, k, bool b)

  -- The conditions that a rule matches on.
  unfoldable pub match_entries : Bool → RouteRule → List Entry
  match_entries for_view r =
      (not (r.ip_version == ""), "ip_version", num (to_int r.ip_version))
      ∷ text_entry "network" r.network
      ∷ text_entry "protocol" r.protocol
      ∷ texts_entry "inbound" r.inbound
      ∷ texts_entry "domain" r.domain
      ∷ texts_entry "domain_suffix" r.domain_suffix
      ∷ texts_entry "domain_keyword" r.domain_keyword
      ∷ texts_entry "domain_regex" r.domain_regex
      ∷ texts_entry "source_ip_cidr" r.source_ip_cidr
      ∷ flag_entry "source_ip_is_private" r.source_ip_is_private
      ∷ texts_entry "ip_cidr" r.ip_cidr
      ∷ flag_entry "ip_is_private" r.ip_is_private
      ∷ numbers_entry "source_port" r.source_port
      ∷ texts_entry "source_port_range" r.source_port_range
      ∷ numbers_entry "port" r.port
      ∷ texts_entry "port_range" r.port_range
      ∷ texts_entry "process_name" r.process_name
      ∷ texts_entry "process_path" r.process_path
      ∷ texts_entry "process_path_regex" r.process_path_regex
      ∷ texts_entry "wifi_ssid" r.wifi_ssid
      ∷ texts_entry "wifi_bssid" r.wifi_bssid
      ∷ (
        is_valid_str_array q r.rule_set,
        "rule_set",
        text_array (if for_view then r.rule_set else map get_rule_set_name r.rule_set),
      )
      ∷ flag_entry "invert" r.invert
      ∷ []

  -- The action and its options that stand above the outbound.
  unfoldable pub option_entries : RouteRule → List Entry
  option_entries r =
      (true, "action", str r.action)
      ∷ (r.action == "reject" && not (r.reject_method == ""), "reject_method", str r.reject_method)
      ∷ (r.action == "reject" && r.no_drop, "no_drop", bool r.no_drop)
      ∷ (
        takes_override r.action && not (r.override_address == ""),
        "override_address",
        str r.override_address,
      )
      ∷ (
        takes_override r.action && is_positive q (to_int r.override_port),
        "override_port",
        num (to_int r.override_port),
      )
      ∷ []

-- The options that stand below it.
unfoldable pub last_entries : RouteRule → List Entry
last_entries r =
    (
      r.action == "sniff" && r.sniff_override_dest,
      "override_destination",
      bool r.sniff_override_dest,
    )
    ∷ (r.action == "resolve" && not (r.strategy == ""), "strategy", str r.strategy)
    ∷ []

-- A route to the block or DNS outbound becomes the action itself, for good.
unfoldable pub fix_action : RouteRule → RouteRule
fix_action r =
    if r.action == "route"
    then if r.outbound_id == dns_id
      then record r { action = "hijack-dns" }
      else if r.outbound_id == block_id
      then record r { action = "reject" }
      else r
    else r

-- The outbound for the viewer; `none` where the profile is missing.
unfoldable pub view_outbound : Profiles → ℤ → Option Json
view_outbound p id =
    if id == proxy_id
    then some (str "proxy")
    else if id == direct_id
    then some (str "direct")
    else elim (p.display_name id) [ none ↦ none | some n ↦ some (str n) ]

unfoldable pub chosen_outbound : Profiles → Bool → String → ℤ → Option Json
unfolding view_outbound
chosen_outbound p for_view tag id =
    if for_view then view_outbound p id else some (if tag == "" then num id else str tag)

-- The entry of the outbound, or `none` for the early `return {}`.
unfoldable pub outbound_entries : Profiles → Bool → String → RouteRule → Option (List Entry)
unfolding chosen_outbound
outbound_entries p for_view tag r =
    if routes r.action
    then elim (chosen_outbound p for_view tag r.outbound_id) [
      | none ↦ none
      | some v ↦ some ((true, "outbound", v) ∷ [])
    ]
    else some []

-- The JSON of a rule whose action is fixed.
unfoldable pub fixed_rule_json : Qt → Profiles → Bool → String → RouteRule → Fields
fixed_rule_json q p for_view tag r = elim (outbound_entries p for_view tag r) [
  | none ↦ end
  | some out ↦
      put_entries (match_entries q for_view r ++ (option_entries q r ++ (out ++ last_entries r)))
        end
]

-- get_rule_json, with the rule that it leaves behind.
unfoldable pub get_rule_json : Qt → Profiles → Bool → String → RouteRule → RouteRule × Fields
get_rule_json q p for_view tag r = let s = fix_action r in (s, fixed_rule_json q p for_view tag s)

abbrev few_keys : String → Fields → Bool
few_keys action json =
    if action == "route" || (action == "route-options" || action == "hijack-dns")
    then leb (count_keys json) 1
    else if action == "sniff" || (action == "resolve" || (action == "reject" || action == "bypass"))
    then ltb (count_keys json) 1
    else false

-- isEmpty, with the rule that it leaves behind.
unfoldable pub is_empty_rule : Qt → Profiles → RouteRule → RouteRule × Bool
is_empty_rule q p r =
    if not (is_custom r.rule_type)
    then if is_address r.rule_type
      then (
        r,
        is_empty r.domain
            && is_empty r.domain_suffix
            && is_empty r.domain_keyword
            && is_empty r.domain_regex
            && is_empty r.rule_set
            && is_empty r.ip_cidr,
      )
      else (r, is_empty r.process_name && is_empty r.process_path)
    else let (s, json) = get_rule_json q p false "" r in (s, few_keys s.action json)

-- to_share_json, with the rule that it leaves behind.
unfoldable pub to_share_json : Qt → Profiles → RouteRule → RouteRule × Fields
to_share_json q p r =
    let (s, obj) = get_rule_json q p true "" r in
    if is_empty_object obj then (s, obj) else (
      s,
      set_key "type" (str (rule_type_to_token s.rule_type)) (set_key "name" (str s.name) obj),
    )
