-- ===== src/Routing/Profile.antt =====
-- The routing profile of src/database/entities/RouteProfile.cpp.
use free_link_app.Common.{ℕ, ℤ, negsuc, String, Bool, false, List, [], ◌∷◌, map}
use free_link_app.Routing.RuleType.{proxy_id}
use free_link_app.Routing.Rule.{RouteRule, new_rule, copy_rule}

pub record RouteProfile : Type 0 where
  pub id : ℤ
  pub name : String
  pub rules : List RouteRule
  pub default_outbound_id : ℤ
  pub is_raw : Bool
  pub raw_route : String
  pub prevent_modifications : Bool
  pub is_remote : Bool
  pub remote_url : String
  pub auto_update : Bool
  pub remote_last_update : ℕ

-- RouteProfile()
abbrev pub new_profile : RouteProfile
new_profile = record {
  id = negsuc 0;
  name = "";
  rules = [];
  default_outbound_id = proxy_id;
  is_raw = false;
  raw_route = "";
  prevent_modifications = false;
  is_remote = false;
  remote_url = "";
  auto_update = false;
  remote_last_update = 0;
}

-- The copy constructor, which copies every rule.
unfoldable pub copy_profile : RouteProfile → RouteProfile
unfolding copy_rule
copy_profile other = record other { rules = map copy_rule other.rules }

-- GetDefaultChain
unfoldable pub default_chain : RouteProfile
default_chain = record new_profile {
  name = "Default";
  rules = record new_rule { name = "Route DNS"; action = "hijack-dns"; protocol = "dns" } ∷ [];
}
