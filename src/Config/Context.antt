-- ===== src/Config/Context.antt =====
-- What the building of a configuration reads and writes (include/configs/generate.h).
use free_link_app.Common.{ℕ, ℤ, negsuc, String, Bool, false, Option, List}
use free_link_app.Json.{Fields}

-- coreBridgeConfig
pub record Bridge : Type 0 where
  pub needed : Bool
  pub port : ℤ
  pub auth : String
  pub loopback_protect : Bool
  pub host : String
  pub bind_interface : String

abbrev pub no_bridge : Bridge
no_bridge = record {
  needed = false;
  port = negsuc 0;
  auth = "";
  loopback_protect = false;
  host = "127.0.0.1";
  bind_interface = "";
}

-- A profile and what its outbound answers: its kind, and the object and the error of Build and
-- BuildXray. A custom outbound keeps the bridge that Build writes out.
pub record Hop : Type 0 where
  pub id : ℤ
  pub gid : ℤ
  pub type_name : String
  -- GetAddress
  pub address : String
  -- Chain()->list, where the profile is a chain
  pub chain : Option (List ℤ)
  pub is_xray : Bool
  pub is_extra_core : Bool
  pub is_xray_full_config : Bool
  -- Custom()->type == Custom::CustomFullConfig
  pub is_full_config : Bool
  pub is_endpoint : Bool
  -- Custom() and the object of its config
  pub custom : Option Fields
  pub bridge : Bridge
  pub build : Bridge → Fields × String
  pub build_xray : Fields × String

-- TrafficChainGroup, with a profile as its id
pub record ChainGroup : Type 0 where
  pub watch_tag : String
  pub profiles : List ℤ

-- BuildSingBoxConfigContext and the part of BuildConfigResult that chains write
pub record Context : Type 0 where
  pub for_test : Bool
  pub tun_enabled : Bool
  pub sing_to_xray_transitioned : Bool
  pub xray_to_sing_transitioned : Bool
  pub default_interface : String
  pub error : String
  pub outbounds : List Fields
  pub endpoints : List Fields
  pub xray_outbounds : List Fields
  pub xray_ingress_tags : List String
  pub sing_ingress_tags : List String
  pub sing_to_xray_bridges : List Bridge
  pub xray_to_sing_bridges : List Bridge
  pub chain_groups : List ChainGroup
  pub core_config : Fields
  pub xray_config : Fields
  pub is_xray_needed : Bool
  pub bound_interface : String

-- QString::number, GetProfile, and Build of the WARP outbound and of a socks outbound (server, port,
-- user and password).
pub record World : Type 0 where
  pub number : ℕ → String
  pub number_int : ℤ → String
  pub get_profile : ℤ → Option Hop
  pub is_ip_address : String → Bool
  pub warp_address : String
  pub build_warp : Fields × String
  pub build_socks : String → ℤ → String → String → Fields × String

-- The ports, secrets and hosts that a chain draws.
pub record Draws : Type 0 where
  pub custom_port : ℤ
  pub custom_auth : String
  pub custom_host : String
  pub port_in : ℤ
  pub auth_in : String
  pub host_in : String
  pub port_out : ℤ
  pub auth_out : String
  pub host_out : String
