-- ===== src/Routing/RuleType.antt =====
-- The kinds of rules and the reserved outbound ids of include/database/entities/RouteRule.h. `type` is
-- stored as an `int`; the model takes it as a value of the enumeration.
use free_link_app.Common.{
  ℕ, nat_eq, ℤ, negsuc, String, String_eq, ℤ_eq, ◌≡◌, refl, Bool, true, false, ◌==◌, if◌then◌else◌,
}

pub data RuleType : Type 0 where
  custom simple_address_proxy simple_address_bypass simple_address_block simple_process_name_proxy
        simple_process_name_bypass simple_process_name_block simple_process_path_proxy
        simple_process_path_bypass simple_process_path_block simple_address_warp_bypass
        simple_process_name_warp_bypass simple_process_path_warp_bypass :
      RuleType

abbrev pub proxy_id : ℤ
proxy_id = negsuc 0

abbrev pub direct_id : ℤ
direct_id = negsuc 1

abbrev pub block_id : ℤ
block_id = negsuc 2

-- Reserved for the hijack of DNS.
abbrev pub dns_id : ℤ
dns_id = negsuc 3

abbrev pub warp_bypass_id : ℤ
warp_bypass_id = negsuc 4

abbrev pub invalid_id : ℤ
invalid_id = negsuc 99998

unfoldable pub outbound_id_to_string : ℤ → String
outbound_id_to_string id =
    if id == proxy_id
    then "proxy"
    else if id == direct_id
    then "direct"
    else if id == block_id
    then "block"
    else if id == warp_bypass_id
    then "warp-bypass"
    else "unknown"

unfoldable pub string_to_outbound_id : String → ℤ
string_to_outbound_id out =
    if out == "proxy"
    then proxy_id
    else if out == "direct"
    then direct_id
    else if out == "block"
    then block_id
    else if out == "warp-bypass"
    then warp_bypass_id
    else proxy_id

unfoldable pub rule_type_to_string : RuleType → String
rule_type_to_string custom = "custom"
rule_type_to_string simple_address_proxy = "Simple Address Proxy"
rule_type_to_string simple_address_bypass = "Simple Address Bypass"
rule_type_to_string simple_address_block = "Simple Address Block"
rule_type_to_string simple_process_name_proxy = "Simple Process Name Proxy"
rule_type_to_string simple_process_name_bypass = "Simple Process Name Bypass"
rule_type_to_string simple_process_name_block = "Simple Process Name Block"
rule_type_to_string simple_process_path_proxy = "Simple Process Path Proxy"
rule_type_to_string simple_process_path_bypass = "Simple Process Path Bypass"
rule_type_to_string simple_process_path_block = "Simple Process Path Block"
rule_type_to_string simple_address_warp_bypass = "Simple Address Warp-bypass"
rule_type_to_string simple_process_name_warp_bypass = "Simple Process Name Warp-bypass"
rule_type_to_string simple_process_path_warp_bypass = "Simple Process Path Warp-bypass"

-- The token of the share schema.
unfoldable pub rule_type_to_token : RuleType → String
rule_type_to_token custom = "custom"
rule_type_to_token simple_address_proxy = "simple_address_proxy"
rule_type_to_token simple_address_bypass = "simple_address_bypass"
rule_type_to_token simple_address_block = "simple_address_block"
rule_type_to_token simple_process_name_proxy = "simple_process_name_proxy"
rule_type_to_token simple_process_name_bypass = "simple_process_name_bypass"
rule_type_to_token simple_process_name_block = "simple_process_name_block"
rule_type_to_token simple_process_path_proxy = "simple_process_path_proxy"
rule_type_to_token simple_process_path_bypass = "simple_process_path_bypass"
rule_type_to_token simple_process_path_block = "simple_process_path_block"
rule_type_to_token simple_address_warp_bypass = "simple_address_warp_bypass"
rule_type_to_token simple_process_name_warp_bypass = "simple_process_name_warp_bypass"
rule_type_to_token simple_process_path_warp_bypass = "simple_process_path_warp_bypass"

unfoldable pub token_to_rule_type : String → RuleType
token_to_rule_type token =
    if token == "simple_address_proxy"
    then simple_address_proxy
    else if token == "simple_address_bypass"
    then simple_address_bypass
    else if token == "simple_address_block"
    then simple_address_block
    else if token == "simple_process_name_proxy"
    then simple_process_name_proxy
    else if token == "simple_process_name_bypass"
    then simple_process_name_bypass
    else if token == "simple_process_name_block"
    then simple_process_name_block
    else if token == "simple_process_path_proxy"
    then simple_process_path_proxy
    else if token == "simple_process_path_bypass"
    then simple_process_path_bypass
    else if token == "simple_process_path_block"
    then simple_process_path_block
    else if token == "simple_address_warp_bypass"
    then simple_address_warp_bypass
    else if token == "simple_process_name_warp_bypass"
    then simple_process_name_warp_bypass
    else if token == "simple_process_path_warp_bypass"
    then simple_process_path_warp_bypass
    else custom

abbrev pub is_address : RuleType → Bool
is_address simple_address_proxy = true
is_address simple_address_bypass = true
is_address simple_address_block = true
is_address simple_address_warp_bypass = true
is_address _ = false

abbrev pub is_custom : RuleType → Bool
is_custom custom = true
is_custom _ = false

-- type == other, as numbers in the order of the enumeration.
abbrev pub type_code : RuleType → ℕ
type_code custom = 0
type_code simple_address_proxy = 1
type_code simple_address_bypass = 2
type_code simple_address_block = 3
type_code simple_process_name_proxy = 4
type_code simple_process_name_bypass = 5
type_code simple_process_name_block = 6
type_code simple_process_path_proxy = 7
type_code simple_process_path_bypass = 8
type_code simple_process_path_block = 9
type_code simple_address_warp_bypass = 10
type_code simple_process_name_warp_bypass = 11
type_code simple_process_path_warp_bypass = 12

abbrev pub same_type : RuleType → RuleType → Bool
same_type a b = nat_eq (type_code a) (type_code b)

-- A kind of rule is read back from its token.
pub token_to_rule_type-rule_type_to_token :
    (t : RuleType) → token_to_rule_type (rule_type_to_token t) ≡ t
unfolding token_to_rule_type rule_type_to_token
token_to_rule_type-rule_type_to_token custom = refl
token_to_rule_type-rule_type_to_token simple_address_proxy = refl
token_to_rule_type-rule_type_to_token simple_address_bypass = refl
token_to_rule_type-rule_type_to_token simple_address_block = refl
token_to_rule_type-rule_type_to_token simple_process_name_proxy = refl
token_to_rule_type-rule_type_to_token simple_process_name_bypass = refl
token_to_rule_type-rule_type_to_token simple_process_name_block = refl
token_to_rule_type-rule_type_to_token simple_process_path_proxy = refl
token_to_rule_type-rule_type_to_token simple_process_path_bypass = refl
token_to_rule_type-rule_type_to_token simple_process_path_block = refl
token_to_rule_type-rule_type_to_token simple_address_warp_bypass = refl
token_to_rule_type-rule_type_to_token simple_process_name_warp_bypass = refl
token_to_rule_type-rule_type_to_token simple_process_path_warp_bypass = refl
