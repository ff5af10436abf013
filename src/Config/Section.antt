-- ===== src/Config/Section.antt =====
-- The outbounds of a configuration with the bridges between the cores (buildOutboundsSection in
-- src/configs/generate.cpp).
pub mod Pairing
use free_link_app.Common.{
  ℕ, zero, suc, ◌+◌, ◌-◌, ℤ, pos, negsuc, ℤ_eq, is_negative, String, ◌<>◌, String_eq, Bool, true,
  false, not, Option, none, some, List, [], ◌∷◌, ◌++◌, ◌==◌, if◌then◌else◌, length, map, ltb,
  nat_eq, keep,
}
use free_link_app.Json.{
  Json, num, str, arr, obj, Items, nil, cons, Fields, end, field, set_key, array_at, to_items,
  of_items,
}
use free_link_app.Repos.Groups.{Group}
use free_link_app.Config.Context.{Bridge, Hop, ChainGroup, Context, World, Draws}
use free_link_app.Config.Hops.{warp_profile_id}
use free_link_app.Config.Outbounds.{ChainArgs, build_outbound_chain}

-- RouteOutboundGroup, with the wrapper as its id
pub record RouteGroup : Type 0 where
  pub hop_ids : List ℤ
  pub chain_wrapper : Option ℤ

-- The profile to run, what routing needs, the groups, and whether WARP is on
pub record Wanted : Type 0 where
  pub ent : Hop
  pub route_groups : List RouteGroup
  pub find_group : ℤ → Option Group
  pub enable_warp : Bool

abbrev pub reversed : List ℤ → List ℤ
reversed [] = []
reversed (x ∷ xs) = reversed xs ++ x ∷ []

abbrev landing_hops : Group → List ℤ
landing_hops g = if is_negative g.landing_proxy_id then [] else g.landing_proxy_id ∷ []

abbrev front_hops : Group → List ℤ
front_hops g = if is_negative g.front_proxy_id then [] else g.front_proxy_id ∷ []

-- The hops of the profile itself; none where a chain has no list.
unfoldable pub own_hops : Wanted → Group → Option (List ℤ)
own_hops v g =
    let around = λ (ids : List ℤ).
      let hops = landing_hops g ++ (ids ++ front_hops g) in
      if v.enable_warp then warp_profile_id ∷ hops else hops in
    if v.ent.type_name == "chain"
    then elim v.ent.chain [ none ↦ none | some ids ↦ some (around (reversed ids)) ]
    else some (around (v.ent.id ∷ []))

-- chainGroups.last().profiles.append(...), where there is a group
abbrev pub credit_last : ℤ → List ChainGroup → List ChainGroup
credit_last id [] = []
credit_last id (g ∷ []) = record g { profiles = g.profiles ++ id ∷ [] } ∷ []
credit_last id (g ∷ next ∷ gs) = g ∷ credit_last id (next ∷ gs)

abbrev pub credit_wrapper : Option ℤ → Context → Context
credit_wrapper none ctx = ctx
credit_wrapper (some id) ctx = record ctx { chain_groups = credit_last id ctx.chain_groups }

abbrev pub own_args : Wanted → ChainArgs
own_args v = record {
  prefix = "config";
  include_proxy = true;
  link = true;
  sing_to_xray_port = negsuc 0;
  xray_to_sing_port = negsuc 0;
  start_suffix = 0;
  warp_wrap = v.enable_warp;
}

abbrev pub route_args : RouteGroup → ℕ → ChainArgs
route_args g suffix = record {
  prefix = "route";
  include_proxy = false;
  link = ltb 1 (length g.hop_ids);
  sing_to_xray_port = negsuc 0;
  xray_to_sing_port = negsuc 0;
  start_suffix = suffix;
  warp_wrap = false;
}

-- The chains that routing needs; `draws` lists what each of them draws.
unfoldable pub build_route_chains :
    World → (ℕ → Draws) → ℕ → ℕ → List RouteGroup → Context → Context
build_route_chains w draws n suffix [] ctx = ctx
build_route_chains w draws n suffix (g ∷ gs) ctx =
    build_route_chains w draws (suc n) (suffix + length g.hop_ids) gs (
      credit_wrapper g.chain_wrapper
        (build_outbound_chain w (draws n) (route_args g suffix) g.hop_ids ctx))

abbrev pub loopback_count : List Bridge → ℕ
loopback_count [] = 0
loopback_count (b ∷ bs) = (if b.loopback_protect then suc else λ n. n) (loopback_count bs)

abbrev socks_inbound : Bridge → String → Fields
socks_inbound b tag =
    let user = field "username" (str b.auth) (field "password" (str b.auth) end) in
    field "type" (str "socks") (
      field "tag" (str tag) (
        field "listen" (str b.host)
          (field "listen_port" (num b.port) (field "users" (arr (cons (obj user) nil)) end))))

-- The inbounds of the bridges; each that leads back into a chain has the next ingress tag.
unfoldable pub bridge_inbounds : World → List Bridge → List String → List Fields
bridge_inbounds w [] tags = []
bridge_inbounds w (b ∷ bs) [] =
    let rest = bridge_inbounds w bs [] in
    if b.loopback_protect
    then socks_inbound b ("bridge-loopback-" <> w.number_int b.port) ∷ rest
    else rest
bridge_inbounds w (b ∷ bs) (tag ∷ tags) =
    let looped = bridge_inbounds w bs (tag ∷ tags) in
    let rest = bridge_inbounds w bs tags in
    if b.loopback_protect
    then socks_inbound b ("bridge-loopback-" <> w.number_int b.port) ∷ looped
    else socks_inbound b ("bridge-" <> tag) ∷ rest

abbrev pub mismatch : String
mismatch = "xray to sing-box bridges count does not match ingress tags count"

abbrev direct_outbound : String → Fields
direct_outbound tag = field "type" (str "direct") (field "tag" (str tag) end)

abbrev pub array_of : List Fields → Json
array_of l = arr (to_items (map obj l))

-- What buildOutboundsSection does behind the chains
unfoldable pub close_section : World → Context → Context
unfolding bridge_inbounds
close_section w ctx =
    let loops = loopback_count ctx.xray_to_sing_bridges in
    let inbounds =
      of_items (array_at "inbounds" ctx.core_config)
      ++ map obj (bridge_inbounds w ctx.xray_to_sing_bridges ctx.sing_ingress_tags) in
    let outbounds =
      ctx.outbounds
      ++ ((if ltb 0 loops then direct_outbound "xray-direct" ∷ [] else [])
          ++ direct_outbound "direct" ∷ []) in
    let config = set_key "outbounds" (array_of outbounds) (
      set_key "endpoints" (array_of ctx.endpoints)
        (set_key "inbounds" (arr (to_items inbounds)) ctx.core_config)) in
    if nat_eq (length ctx.xray_to_sing_bridges - loops) (length ctx.sing_ingress_tags)
    then record ctx { outbounds = outbounds; core_config = config }
    else record ctx { error = mismatch }

abbrev pub wrapper : Hop → Option ℤ
wrapper ent = if ent.type_name == "chain" then some ent.id else none

-- All chains of the section, the profile's own first
unfoldable pub build_chains : World → (ℕ → Draws) → Wanted → List ℤ → Context → Context
unfolding build_route_chains
build_chains w draws v hops ctx =
    build_route_chains w draws 1 0 v.route_groups
      (credit_wrapper (wrapper v.ent) (build_outbound_chain w (draws 0) (own_args v) hops ctx))

-- buildOutboundsSection
unfoldable pub build_outbounds_section : World → (ℕ → Draws) → Wanted → Context → Context
unfolding own_hops build_chains close_section
build_outbounds_section w draws v ctx = elim (v.find_group v.ent.gid) [
  | none ↦ record ctx { error = "No group found for ent, data is corrupted" }
  | some g ↦ elim (own_hops v g) [
    | none ↦ record ctx { error = "Ent is nullptr after cast to chain, data is corrupted" }
    | some hops ↦ close_section w (build_chains w draws v hops ctx)
  ]
]
