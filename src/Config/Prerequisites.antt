-- ===== src/Config/Prerequisites.antt =====
-- The outbounds that a routing profile needs, with their tags (the routing dependencies of
-- CalculatePrerequisities in src/configs/generate.cpp).
pub mod Points
pub mod Presence
pub mod Tags
use free_link_app.Common.{
  is_empty, ℕ, suc, ◌+◌, ℤ, pos, negsuc, ℤ_eq, is_negative, String, ◌<>◌, String_eq, Bool, true,
  false, ◌&&◌, ◌||◌, Option, none, some, List, [], ◌∷◌, ◌++◌, ◌==◌, if◌then◌else◌, length, insert,
  not,
}
use free_link_app.Routing.RuleType.{warp_bypass_id}
use free_link_app.Config.Context.{Hop, World}
use free_link_app.Config.Chain.{numbered}
use free_link_app.Config.Section.{RouteGroup, reversed}

-- RoutingDeps, the direct domains of DNSDeps, and the running suffix
pub record Needs : Type 0 where
  pub direct_domains : List String
  pub need_direct_dns_rules : Bool
  pub outbound_map : List (ℤ × String)
  pub route_outbound_groups : List RouteGroup
  pub suffix : ℕ

-- The start of the routing dependencies
abbrev pub no_needs : Bool → Needs
no_needs enable_warp = record {
  direct_domains = [];
  need_direct_dns_rules = false;
  outbound_map =
      insert warp_bypass_id (if enable_warp then "warp-bypass" else "proxy")
        ((negsuc 0, "proxy") ∷ (negsuc 1, "direct") ∷ []);
  route_outbound_groups = [];
  suffix = 0;
}

-- What must not stand in a route: an extra core or a whole configuration
abbrev pub is_unroutable : Hop → Bool
is_unroutable ent =
    ent.is_extra_core
    || (ent.type_name == "custom" && ent.is_full_config || ent.is_xray_full_config)

-- getEntDomains for a profile that is no chain
abbrev pub ent_domains : World → Hop → List String
ent_domains w ent =
    if ent.is_extra_core || (ent.address == "" || w.is_ip_address ent.address)
    then []
    else ent.address ∷ []

abbrev pub add_domains : List String → Needs → Needs
add_domains domains n =
    if is_empty domains
    then n
    else record n { direct_domains = n.direct_domains ++ domains; need_direct_dns_rules = true }

-- The loop over the hops of a chain
unfoldable pub need_hops : World → List ℤ → Needs → Needs × String
need_hops w [] n = (n, "")
need_hops w (id ∷ ids) n = elim (w.get_profile id) [
  | none ↦ (n, "Chain outbound in routing profile contains a missing profile")
  | some ent ↦
      let rest = need_hops w ids (add_domains (ent_domains w ent) n) in
      if is_unroutable ent || ent.type_name == "chain"
      then (
        n,
        "Chain hops in routing profile cannot use an extra core, a custom full config, or be of type chain",
      )
      else rest
]

-- A group of its own, and the tag of its first hop
abbrev pub assign : World → ℤ → RouteGroup → Needs → Needs
assign w id g n = record n {
  outbound_map = insert id (numbered w "route" n.suffix) n.outbound_map;
  route_outbound_groups = n.route_outbound_groups ++ g ∷ [];
  suffix = n.suffix + length g.hop_ids;
}

abbrev pub empty_chain : String
empty_chain = "Chain outbound in routing profile is empty or corrupted"

abbrev pub assigned : World → ℤ → RouteGroup → Needs × String → Needs × String
assigned w id g (n, error) = if error == "" then (assign w id g n, "") else (n, error)

abbrev pub need_chain : World → ℤ → Option (List ℤ) → Needs → Needs × String
need_chain w id none n = (n, empty_chain)
need_chain w id (some ids) n =
    if is_empty ids
    then (n, empty_chain)
    else assigned w id (record { hop_ids = reversed ids; chain_wrapper = some id })
        (need_hops w ids n)

abbrev pub need_single : World → ℤ → Hop → Needs → Needs × String
need_single w id ent n = (
  assign w id (record { hop_ids = id ∷ []; chain_wrapper = none })
      (add_domains (ent_domains w ent) n),
  "",
)

abbrev pub need_ent : World → ℤ → Option Hop → Needs → Needs × String
need_ent w id none n = (
  n,
  "The routing profile is referencing outbounds that no longer exist, consider revising your settings",
)
need_ent w id (some ent) n =
    if is_unroutable ent
    then (
      n, "Outbounds used in routing profile cannot use an extra core or be a custom full config",
    )
    else if ent.type_name == "chain"
    then need_chain w id ent.chain n
    else need_single w id ent n

unfoldable pub need_outbound : World → ℤ → Needs → Needs × String
unfolding need_hops
need_outbound w id n = if is_negative id then (n, "") else need_ent w id (w.get_profile id) n

-- The loop over the needed outbounds
unfoldable pub need_outbounds : World → List ℤ → Needs → Needs × String
unfolding need_outbound
need_outbounds w [] n = (n, "")
need_outbounds w (id ∷ ids) n =
    let (after, error) = need_outbound w id n in
    let rest = need_outbounds w ids after in if error == "" then rest else (after, error)
