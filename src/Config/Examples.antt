-- ===== src/Config/Examples.antt =====
-- Chains on small inputs (src/configs/generate.cpp).
use free_link_app.Common.{
  All, is_negative, lookup, ℕ, zero, suc, ℤ, pos, negsuc, ℤ_eq, String, ◌<>◌, String_eq, ◌≡◌, refl,
  Bool, true, false, none, some, [], ◌∷◌, ◌==◌, if◌then◌else◌,
}
use free_link_app.Json.{str, end, field}
use free_link_app.Repos.Groups.{new_group}
use free_link_app.Config.Context.{no_bridge, Hop, Context, World, Draws}
use free_link_app.Config.Hops.{enter, append_hop, scan, ent_list}
use free_link_app.Config.Hops.Order.{Sorted, ent_list-Sorted}
use free_link_app.Config.Chain.{Chaining}
use free_link_app.Config.Chain as Singbox
use free_link_app.Config.Prerequisites.{no_needs, need_hops, need_outbound, need_outbounds}
use free_link_app.Config.Prerequisites.Tags.{Built, need_outbounds-Built}
use free_link_app.Config.Section.{Wanted, own_hops, build_chains, build_outbounds_section}
use free_link_app.Config.Section.Pairing.{build_outbounds_section-error}

abbrev number_text : ℕ → String
number_text zero = "0"
number_text (suc n) = "s" <> number_text n

abbrev int_text : ℤ → String
int_text (pos n) = number_text n
int_text (negsuc n) = "-" <> number_text n

abbrev hop : ℤ → Bool → Hop
hop n xray = record {
  id = n;
  gid = pos 1;
  type_name = "vless";
  address = "example.org";
  chain = none;
  is_xray = xray;
  is_extra_core = false;
  is_xray_full_config = false;
  is_full_config = false;
  is_endpoint = false;
  custom = none;
  bridge = no_bridge;
  build = λ b. (field "type" (str "vless") end, "");
  build_xray = (field "protocol" (str "vless") end, "");
}

-- Profile 2 is one of Xray, profile 4 a chain.
abbrev world : World
world = record {
  number = number_text;
  number_int = int_text;
  get_profile = λ id.
      if id == pos 1
      then some (hop (pos 1) false)
      else if id == pos 2
      then some (hop (pos 2) true)
      else if id == pos 3
      then some (hop (pos 3) false)
      else if id == pos 4
      then some
          (record (hop (pos 4) false) { type_name = "chain"; chain = some (pos 3 ∷ pos 1 ∷ []) })
      else none;
  is_ip_address = λ s. s == "1.1.1.1";
  warp_address = "";
  build_warp = (end, "");
  build_socks = λ host port user password. (field "type" (str "socks") end, "");
}

abbrev draws : Draws
draws = record {
  custom_port = pos 1;
  custom_auth = "a";
  custom_host = "127.0.0.2";
  port_in = pos 2;
  auth_in = "b";
  host_in = "127.0.0.3";
  port_out = pos 3;
  auth_out = "c";
  host_out = "127.0.0.4";
}

abbrev empty_context : Context
empty_context = record {
  for_test = false;
  tun_enabled = true;
  sing_to_xray_transitioned = false;
  xray_to_sing_transitioned = false;
  default_interface = "";
  error = "";
  outbounds = [];
  endpoints = [];
  xray_outbounds = [];
  xray_ingress_tags = [];
  sing_ingress_tags = [];
  sing_to_xray_bridges = [];
  xray_to_sing_bridges = [];
  chain_groups = [];
  core_config = end;
  xray_config = end;
  is_xray_needed = false;
  bound_interface = "";
}

-- A chain through Xray and back.
ent_list-Sorted_example : Sorted (ent_list world (pos 1 ∷ pos 2 ∷ pos 3 ∷ [])).0
unfolding ent_list scan enter append_hop
ent_list-Sorted_example = ent_list-Sorted world (pos 1 ∷ pos 2 ∷ pos 3 ∷ []) refl

-- There and back again is refused.
refused_twice : (ent_list world (pos 2 ∷ pos 1 ∷ pos 2 ∷ [])).1 == "" ≡ false
unfolding ent_list scan enter append_hop
refused_twice = refl

abbrev two : Chaining
two = record {
  prefix = "config";
  include_proxy = true;
  link = true;
  start_suffix = 0;
  mark_ingress = false;
  warp_wrap = true;
}

-- The profile is the chain above, read from its list.
abbrev wanted : Wanted
wanted = record {
  ent = record (hop (pos 9) false) {
    type_name = "chain";
    chain = some (pos 3 ∷ pos 2 ∷ pos 1 ∷ []);
  };
  route_groups = record { hop_ids = pos 2 ∷ []; chain_wrapper = none } ∷ [];
  find_group = λ id. if id == pos 1 then some new_group else none;
  enable_warp = false;
}

build_outbounds_section-error_example :
    (build_outbounds_section world (λ n. draws) wanted empty_context).error
    ≡ (build_chains world (λ n. draws) wanted (pos 1 ∷ pos 2 ∷ pos 3 ∷ []) empty_context).error
unfolding own_hops
build_outbounds_section-error_example =
    build_outbounds_section-error world (λ n. draws) wanted new_group (pos 1 ∷ pos 2 ∷ pos 3 ∷ [])
      empty_context refl refl (record { paired = refl })

-- A rule for the chain, one for profile 2 and one for the proxy.
need_outbounds-Built_example :
    let n = (need_outbounds world (pos 4 ∷ pos 2 ∷ negsuc 0 ∷ []) (no_needs false)).0 in
    All
      (λ id.
        is_negative id ≡ false
        → (tag : String) × (lookup id n.outbound_map ≡ some tag)
          × Built world (λ k. draws) n.route_outbound_groups empty_context id tag)
      (pos 4 ∷ pos 2 ∷ negsuc 0 ∷ [])
unfolding need_outbounds need_outbound need_hops
need_outbounds-Built_example =
    need_outbounds-Built world (λ k. draws) false (pos 4 ∷ pos 2 ∷ negsuc 0 ∷ []) empty_context refl
