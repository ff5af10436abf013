-- ===== src/Config/Outbounds.antt =====
-- The outbounds of a configuration: a chain through both cores, and the section with all chains
-- (src/configs/generate.cpp).
pub mod Marks
pub mod Bridges
use free_link_app.Common.{
  is_empty, ℕ, zero, suc, ◌+◌, ℤ, pos, negsuc, ℤ_eq, is_negative, String, ◌<>◌, String_eq, Bool,
  true, false, not, ◌&&◌, Option, none, some, List, [], ◌∷◌, ◌++◌, ◌==◌, if◌then◌else◌, length, map,
  ltb, nat_eq, keep,
}
use free_link_app.Json.{
  Json, null, bool, num, str, arr, obj, Items, nil, cons, Fields, end, field, set_key, get_key,
  array_at, is_empty_object, to_items, of_items,
}
use free_link_app.Repos.Groups.{Group}
use free_link_app.Config.Context.{Bridge, no_bridge, Hop, ChainGroup, Context, World, Draws}
use free_link_app.Config.Hops.{Scan, ent_list, Parts, parts_of, warp_profile_id}
use free_link_app.Config.Chain.{Chaining, numbered, build_singbox_chain, build_xray_chain}

-- The last profile of a chain, where it is a whole Xray configuration.
unfoldable pub full_config_at : List Hop → Option Hop
full_config_at [] = none
full_config_at (ent ∷ []) = if ent.is_xray_full_config then some ent else none
full_config_at (ent ∷ next ∷ ents) = full_config_at (next ∷ ents)

-- The inbound through which the chain reaches that configuration
abbrev pub bridge_inbound : Bridge → Fields
bridge_inbound b =
    let account = field "user" (str b.auth) (field "pass" (str b.auth) end) in
    let settings =
      field "auth" (str "password")
        (field "udp" (bool true) (field "accounts" (arr (cons (obj account) nil)) end)) in
    field "tag" (str "freelink-bridge") (
      field "listen" (str b.host) (
        field "port" (num b.port)
          (field "protocol" (str "socks") (field "settings" (obj settings) end))))

abbrev pub with_bridge : Bridge → List Hop → List Hop
with_bridge b [] = []
with_bridge b (ent ∷ []) = record ent { bridge = b } ∷ []
with_bridge b (ent ∷ next ∷ ents) = ent ∷ with_bridge b (next ∷ ents)

abbrev pub custom_bridge : Draws → Bridge
custom_bridge d = record no_bridge {
  port = d.custom_port;
  auth = d.custom_auth;
  host = d.custom_host;
}

abbrev pub join_custom : Draws → List Hop → Context → Option Fields → Context × List Hop
join_custom d ents ctx none =
    (record ctx { error = "Failed to cast to Custom for Xray full config hop" }, ents)
join_custom d ents ctx (some config) =
    let b = custom_bridge d in
    let inbounds = arr (cons (obj (bridge_inbound b)) (array_at "inbounds" config)) in
    if is_empty_object config
    then (record ctx { error = "Custom Xray full config is not valid JSON" }, ents)
    else (
      record ctx { xray_config = set_key "inbounds" inbounds config; is_xray_needed = true },
      with_bridge b ents,
    )

-- The bridge into a whole Xray configuration: the context and the hops behind it.
unfoldable pub join_full_config : Draws → List Hop → Context → Context × List Hop
join_full_config d ents ctx = elim (full_config_at ents) [
  | none ↦ (ctx, ents)
  | some ent ↦ join_custom d ents ctx ent.custom
]

-- The socks outbound that a chain of sing-box ends with when Xray hops follow
abbrev pub bridge_hop : World → Bridge → Hop
bridge_hop w b = record {
  id = negsuc 0;
  gid = pos 0;
  type_name = "socks";
  address = b.host;
  chain = none;
  is_xray = false;
  is_extra_core = false;
  is_xray_full_config = false;
  is_full_config = false;
  is_endpoint = false;
  custom = none;
  bridge = no_bridge;
  build = λ c. w.build_socks b.host b.port b.auth b.auth;
  build_xray = (end, "");
}

abbrev pub drawn_port : ℤ → ℤ → ℤ
drawn_port port drawn = if port == negsuc 0 then drawn else port

-- The bridge into Xray, with the hop that dials it
unfoldable pub bridge_in : World → Draws → ℤ → Parts → Context → Parts × Context
bridge_in w d port p ctx =
    let b = record no_bridge {
      needed = true;
      port = drawn_port port d.port_in;
      auth = d.auth_in;
      host = d.host_in;
    } in
    if ctx.sing_to_xray_transitioned
    then (
      record p { initial_sing = p.initial_sing ++ bridge_hop w b ∷ [] },
      record ctx { sing_to_xray_bridges = ctx.sing_to_xray_bridges ++ b ∷ [] },
    )
    else (p, ctx)

abbrev pub final_egress : Parts → Context → Bool
final_egress p ctx =
    not (is_empty p.xray) && (is_empty p.tailing_sing && not ctx.xray_to_sing_transitioned)

-- A bridge that leads back into the chain, or to the direct outbound of sing-box
abbrev pub through : Draws → ℤ → Bool → Context → Bridge × Context
through d port looped ctx =
    let b = record no_bridge {
      needed = true;
      port = drawn_port port d.port_out;
      auth = d.auth_out;
      loopback_protect = looped;
      host = d.host_out;
    } in
    (b, record ctx { xray_to_sing_bridges = ctx.xray_to_sing_bridges ++ b ∷ [] })

-- No bridge: the last hop is bound to the interface.
abbrev pub bound : Context → Bridge × Context
bound ctx = (
  record no_bridge { bind_interface = ctx.default_interface },
  record ctx {
    bound_interface = if ctx.for_test then ctx.bound_interface else ctx.default_interface;
  },
)

-- The bridge out of Xray, or what keeps the traffic of its last hop out of the tunnel
unfoldable pub bridge_out : Draws → ℤ → Parts → Context → Bridge × Context
bridge_out d port p ctx =
    if ctx.xray_to_sing_transitioned
    then through d port false ctx
    else if final_egress p ctx && not (ctx.default_interface == "")
    then bound ctx
    else if final_egress p ctx && ctx.tun_enabled
    then through d port true ctx
    else (no_bridge, ctx)

-- The arguments of buildOutboundChain
pub record ChainArgs : Type 0 where
  pub prefix : String
  pub include_proxy : Bool
  pub link : Bool
  pub sing_to_xray_port : ℤ
  pub xray_to_sing_port : ℤ
  pub start_suffix : ℕ
  pub warp_wrap : Bool

abbrev pub first_args : ChainArgs → Chaining
first_args a = record {
  prefix = a.prefix;
  include_proxy = a.include_proxy;
  link = a.link;
  start_suffix = a.start_suffix;
  mark_ingress = false;
  warp_wrap = a.warp_wrap;
}

-- The hops behind Xray: the first is marked as an ingress.
abbrev pub tail_args : ChainArgs → ℕ → Chaining
tail_args a n = record {
  prefix = a.prefix;
  include_proxy = false;
  link = a.link;
  start_suffix = a.start_suffix + n;
  mark_ingress = true;
  warp_wrap = false;
}

abbrev pub watch_tag : World → ChainArgs → Parts → String
watch_tag w a p =
    if not (is_empty p.tailing_sing)
    then numbered w a.prefix (a.start_suffix + length p.initial_sing)
    else if a.include_proxy
    then "proxy"
    else numbered w a.prefix a.start_suffix

abbrev pub watched : World → ChainArgs → Parts → List Hop → Context → Context
watched w a p [] ctx = ctx
watched w a p (ent ∷ ents) ctx = record ctx {
  chain_groups =
      ctx.chain_groups
      ++ (record { watch_tag = watch_tag w a p; profiles = map (λ e. e.id) (ent ∷ ents) }) ∷ [];
}

-- The three parts of a chain, one after the other
unfoldable pub build_parts : World → ChainArgs → Bridge → Parts → Context → Context
build_parts w a b p ctx =
    let first =
      if is_empty p.initial_sing
      then ctx
      else build_singbox_chain w (first_args a) 0 p.initial_sing ctx in
    let second =
      if is_empty p.xray then first else build_xray_chain w (first_args a) b 0 p.xray first in
    if is_empty p.tailing_sing
    then second
    else build_singbox_chain w (tail_args a (length p.initial_sing)) 0 p.tailing_sing second

-- buildOutboundChain behind entIDListtoEntList
unfoldable pub build_ents : World → Draws → ChainArgs → List Hop → Context → Context
unfolding join_full_config bridge_in bridge_out build_parts
build_ents w d a listed ctx =
    let (joined, ents) = join_full_config d listed ctx in
    let (p, entered) = bridge_in w d a.sing_to_xray_port (parts_of ents) joined in
    let (b, bridged) = bridge_out d a.xray_to_sing_port p entered in
    let built = watched w a p ents (build_parts w a b p bridged) in
    if joined.error == "" then built else joined

-- What entIDListtoEntList writes to the context
abbrev pub scanned_context : Scan × String → Context → Context
scanned_context (s, error) ctx = record ctx {
  sing_to_xray_transitioned = s.sing_to_xray;
  xray_to_sing_transitioned = s.xray_to_sing;
  error = if error == "" then ctx.error else error;
}

-- buildOutboundChain
unfoldable pub build_outbound_chain : World → Draws → ChainArgs → List ℤ → Context → Context
unfolding build_ents
build_outbound_chain w d a ids ctx =
    let scanned = scanned_context (ent_list w ids) ctx in
    if scanned.error == "" then build_ents w d a (ent_list w ids).0.ents scanned else scanned
