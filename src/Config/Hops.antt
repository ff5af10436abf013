-- ===== src/Config/Hops.antt =====
-- The hops of a chain: which sequences of profiles may stand in one, and how they fall into parts
-- (src/configs/generate.cpp).
pub mod Order
use free_link_app.Common.{
  ℕ, suc, ◌+◌, ℤ, pos, negsuc, ℤ_eq, String, String_eq, Bool, true, false, not, ◌&&◌, ◌||◌, Option,
  none, some, List, [], ◌∷◌, ◌++◌, ◌==◌, if◌then◌else◌, length, nat_eq, ltb, is_empty,
}
use free_link_app.Json.{Fields, end}
use free_link_app.Config.Context.{Hop, World, no_bridge}

-- warpProfileID
abbrev pub warp_profile_id : ℤ
warp_profile_id = negsuc 2407

-- getWarpProfile; a WireGuard outbound is an endpoint
abbrev pub get_warp_profile : World → Hop
get_warp_profile w = record {
  id = warp_profile_id;
  gid = pos 0;
  type_name = "wireguard";
  address = w.warp_address;
  chain = none;
  is_xray = false;
  is_extra_core = false;
  is_xray_full_config = false;
  is_full_config = false;
  is_endpoint = true;
  custom = none;
  bridge = no_bridge;
  build = λ b. w.build_warp;
  build_xray = (end, "");
}

-- The variables of entIDListtoEntList; an index that is -1 is none.
pub record Scan : Type 0 where
  pub ents : List Hop
  pub extra_core_count : ℕ
  pub extra_core_idx : Option ℕ
  pub xray_full_config_count : ℕ
  pub xray_full_config_idx : Option ℕ
  pub xray_hop_count : ℕ
  pub has_custom_full_config : Bool
  pub core_transitions : ℕ
  pub in_xray : Bool
  pub sing_to_xray : Bool
  pub xray_to_sing : Bool

abbrev pub start : Scan
start = record {
  ents = [];
  extra_core_count = 0;
  extra_core_idx = none;
  xray_full_config_count = 0;
  xray_full_config_idx = none;
  xray_hop_count = 0;
  has_custom_full_config = false;
  core_transitions = 0;
  in_xray = false;
  sing_to_xray = false;
  xray_to_sing = false;
}

-- Into the core of the next hop: a transition is counted where it is another one.
unfoldable pub enter : Bool → Scan → Scan
enter xray s = record s {
  sing_to_xray = if not s.in_xray && xray then true else s.sing_to_xray;
  xray_to_sing = if s.in_xray && not xray then true else s.xray_to_sing;
  core_transitions =
      (if s.in_xray && not xray then suc else λ n. n)
        ((if not s.in_xray && xray then suc else λ n. n) s.core_transitions);
  in_xray = xray;
}

unfoldable pub append_hop : Hop → Scan → Scan
append_hop ent s = record s {
  extra_core_count = (if ent.is_extra_core then suc else λ n. n) s.extra_core_count;
  extra_core_idx = if ent.is_extra_core then some (length s.ents) else s.extra_core_idx;
  xray_full_config_count =
      (if ent.is_xray_full_config then suc else λ n. n) s.xray_full_config_count;
  xray_full_config_idx =
      if ent.is_xray_full_config then some (length s.ents) else s.xray_full_config_idx;
  xray_hop_count = (if ent.is_xray then suc else λ n. n) s.xray_hop_count;
  has_custom_full_config =
      if ent.type_name == "custom" && ent.is_full_config then true else s.has_custom_full_config;
  ents = s.ents ++ ent ∷ [];
}

-- The loop of entIDListtoEntList, with its error, which is empty where there is none.
unfoldable pub scan : World → List ℤ → Scan → Scan × String
scan w [] s = (s, "")
scan w (id ∷ ids) s =
    let warp = enter false s in
    let past_warp = scan w ids (record warp { ents = warp.ents ++ get_warp_profile w ∷ [] }) in
    if id == warp_profile_id then past_warp else elim (w.get_profile id) [
      | none ↦ (s, "Null proxy in chain, you may want to check your configs")
      | some ent ↦
          let inside = enter ent.is_xray s in
          let rest = scan w ids (append_hop ent inside) in
          if ent.type_name == "chain" then (inside, "Chain in Chain is not allowed") else rest
    ]

-- Whether an index is that of the last hop.
abbrev is_last : Option ℕ → ℕ → Bool
is_last none n = false
is_last (some i) n = nat_eq (suc i) n

-- The error of the first test that holds
abbrev pub first_of : List (Bool × String) → String
first_of [] = ""
first_of ((test, error) ∷ tests) = if test then error else first_of tests

abbrev pub too_many : String
too_many =
    "Too many core transitions, the valid sequence is: (optional sing-box chain)->(optional xray chain)->(optional sing-box chain)"

-- The tests behind the loop.
abbrev pub refusals : Scan → List (Bool × String)
refusals s =
    (
      s.has_custom_full_config,
      "Custom full config profiles cannot be used in a chain; only custom outbound profiles are chainable",
    )
    ∷ (ltb 1 s.extra_core_count, "Only one extra-core profile is allowed in a chain")
    ∷ (
      ltb 1 s.xray_full_config_count,
      "Only one custom Xray full config profile is allowed in a chain",
    )
    ∷ (
      ltb 0 s.extra_core_count && ltb 0 s.xray_full_config_count,
      "Extra-core and custom Xray full config profiles cannot be combined in a chain",
    )
    ∷ (
      ltb 0 s.xray_full_config_count && ltb 0 s.xray_hop_count,
      "Custom Xray full config cannot be combined with other Xray hops in a chain (only one Xray instance is supported at a time)",
    )
    ∷ (
      nat_eq s.extra_core_count 1
          && (ltb 1 (length s.ents) && not (is_last s.extra_core_idx (length s.ents))),
      "Extra-core profiles can only be the final hop in a chain (top of the chain editor)",
    )
    ∷ (
      nat_eq s.xray_full_config_count 1
          && (ltb 1 (length s.ents) && not (is_last s.xray_full_config_idx (length s.ents))),
      "Custom Xray full config can only be the final hop in a chain (top of the chain editor)",
    )
    ∷ (ltb 2 s.core_transitions, too_many)
    ∷ []

abbrev pub refusal : Scan → String
refusal s = first_of (refusals s)

-- entIDListtoEntList
unfoldable pub ent_list : World → List ℤ → Scan × String
ent_list w ids =
    let (s, error) = scan w ids start in if error == "" then (s, refusal s) else (s, error)

-- initialSingEnts, xrayEnts and tailingSingEnts
pub record Parts : Type 0 where
  pub initial_sing : List Hop
  pub xray : List Hop
  pub tailing_sing : List Hop

unfoldable pub put_in : Bool → Hop → Parts → Parts
put_in true ent p = record p { xray = p.xray ++ ent ∷ [] }
put_in false ent p =
    if is_empty p.xray
    then record p { initial_sing = p.initial_sing ++ ent ∷ [] }
    else record p { tailing_sing = p.tailing_sing ++ ent ∷ [] }

abbrev pub put_hop : Hop → Parts → Parts
put_hop ent p = put_in ent.is_xray ent p

unfoldable pub put_hops : List Hop → Parts → Parts
put_hops [] p = p
put_hops (ent ∷ ents) p = put_hops ents (put_hop ent p)

-- The loop of buildOutboundChain over the hops
unfoldable pub parts_of : List Hop → Parts
unfolding put_hops
parts_of ents = put_hops ents (record { initial_sing = []; xray = []; tailing_sing = [] })
