-- ===== src/Routing/Examples.antt =====
-- Runs of the routing rules (src/database/entities/RouteRule.cpp, RouteProfile.cpp) on small inputs.
use free_link_app.Common.{
  ℤ, pos, negsuc, ℤ_eq, String, String_eq, ◌≡◌, refl, true, false, Option, none, some, [], ◌∷◌,
  is_none, arith, ◌==◌, if◌then◌else◌, contains, All,
}
use free_link_app.Qt.{Qt, plain}
use free_link_app.Json.{num, str, arr, obj, nil, cons, Fields, end, field}
use free_link_app.Routing.Attribute.{Attribute, attribute_of, name_of}
use free_link_app.Routing.Rule.{RouteRule, new_rule}
use free_link_app.Routing.Rule.Values.{
  linux, set_field_value, set_attribute, filter_empty, tab_attributes,
}
use free_link_app.Routing.Rule.Tabs.{
  at_default, clear_attribute_value, ensure_ui_visible_attribute_tabs_seeded,
}
use free_link_app.Routing.Rule.Editing.{shown, meant, set_field_value-shown, set_field_value-faults}
use free_link_app.Routing.Rule.Clearing.{clear_attribute_value-clears}
use free_link_app.Routing.Rule.Seeding.{ensure_ui_visible_attribute_tabs_seeded-shows}
use free_link_app.Routing.Profiles.{one_profile}
use free_link_app.Routing.RuleJson.{fix_action, is_empty_rule, to_share_json, view_outbound}
use free_link_app.Routing.RuleJson.Emptiness.{custom_rule_not_empty}
use free_link_app.Routing.Import.{parse_rule_object, get_outbound_id}
use free_link_app.Routing.Import.Tidy.{IsTidy}
use free_link_app.Routing.Import.Runs.{imported}
use free_link_app.Routing.Import.RoundTrip.{parse_rule_object-to_share_json}
use free_link_app.Routing.Raw.{
  collect_raw_outbound_ids, translate_raw_outbounds, remap_fields, collect_raw,
}
use free_link_app.Routing.Raw.Collect.{
  Agree, translate_raw_outbounds-cong, collect-translate_raw_outbounds,
}
use free_link_app.Routing.Raw.Remap.{StandsForOne, collect-remap-Stands}

abbrev tcp_rule : RouteRule
tcp_rule = record new_rule { network = "tcp"; domain = "a.org" ∷ [] }

set_field_value-shown_example :
    shown plain Attribute.domain (record new_rule { network = "tcp"; domain = "b.org" ∷ [] })
    ≡ "b.org" ∷ []
unfolding set_field_value attribute_of set_attribute name_of meant filter_empty
set_field_value-shown_example =
    set_field_value-shown plain Attribute.domain Attribute.domain ("" ∷ "b.org" ∷ []) tcp_rule
      (record tcp_rule { domain = "b.org" ∷ [] }) refl

set_field_value-faults_example : is_none (set_field_value plain "network" [] tcp_rule) ≡ true
unfolding name_of
set_field_value-faults_example = set_field_value-faults plain Attribute.network [] tcp_rule

clear_attribute_value-clears_example :
    (at_default plain "network" (clear_attribute_value "network" tcp_rule) ≡ true)
    × (shown plain Attribute.domain (clear_attribute_value "network" tcp_rule) ≡ "a.org" ∷ [])
unfolding shown name_of
clear_attribute_value-clears_example =
    clear_attribute_value-clears plain Attribute.network Attribute.domain tcp_rule refl

ensure_ui_visible_attribute_tabs_seeded-shows_example :
    let s = ensure_ui_visible_attribute_tabs_seeded plain linux tcp_rule in
    (contains s.ui_visible_attributes "network" ≡ true)
    × (ensure_ui_visible_attribute_tabs_seeded plain linux s ≡ s)
unfolding at_default tab_attributes
ensure_ui_visible_attribute_tabs_seeded-shows_example =
    ensure_ui_visible_attribute_tabs_seeded-shows plain linux "network" tcp_rule refl

custom_rule_not_empty_example : (is_empty_rule plain one_profile new_rule).1 ≡ false
unfolding fix_action
custom_rule_not_empty_example =
    custom_rule_not_empty plain one_profile new_rule refl (λ h. cc) (λ h. cc)

-- A route with a nested reference to profile 5 and a final one to the direct outbound.
abbrev raw_route : Fields
raw_route =
    field "rules" (arr (cons (obj (field "outbound" (num (pos 5)) end)) nil))
      (field "final" (num (negsuc 1)) end)

raw_route_ids : collect_raw_outbound_ids raw_route ≡ pos 5 ∷ negsuc 1 ∷ []
unfolding collect_raw_outbound_ids collect_raw
raw_route_ids = refl

abbrev tags : ℤ → Option String
tags id = if id == pos 5 then some "g-5" else if id == negsuc 1 then some "direct" else none

abbrev more_tags : ℤ → Option String
more_tags id =
    if id == pos 5
    then some "g-5"
    else if id == negsuc 1
    then some "direct"
    else if id == pos 8
    then some "g-8"
    else none

tags-Agree : Agree tags more_tags (collect_raw_outbound_ids raw_route)
unfolding collect_raw_outbound_ids collect_raw
tags-Agree x c = ground arith

translate_raw_outbounds-cong_example :
    translate_raw_outbounds raw_route tags ≡ translate_raw_outbounds raw_route more_tags
translate_raw_outbounds-cong_example =
    translate_raw_outbounds-cong tags more_tags raw_route tags-Agree

collect-translate_raw_outbounds_example :
    collect_raw_outbound_ids (translate_raw_outbounds raw_route tags) ≡ []
collect-translate_raw_outbounds_example = collect-translate_raw_outbounds tags raw_route

-- The exporting machine called its profile 0 (which `plain` writes every number as) "home".
collect-remap-Stands_example :
    All
      (StandsForOne plain one_profile
        (field "0" (str "home") end)
        (collect_raw_outbound_ids raw_route))
      (collect_raw_outbound_ids
        (remap_fields plain one_profile (field "0" (str "home") end) raw_route))
collect-remap-Stands_example =
    collect-remap-Stands plain one_profile (field "0" (str "home") end) raw_route

new_rule-IsTidy : (q : Qt) → IsTidy q (record new_rule { outbound_id = pos 5; network = "tcp" })
unfolding filter_empty
new_rule-IsTidy q = record {
  inbound = refl;
  domain = refl;
  domain_suffix = refl;
  domain_keyword = refl;
  domain_regex = refl;
  source_ip_cidr = refl;
  ip_cidr = refl;
  source_port_range = refl;
  port_range = refl;
  process_name = refl;
  process_path = refl;
  process_path_regex = refl;
  wifi_ssid = refl;
  wifi_bssid = refl;
  rule_set = refl;
}

-- Profile 5 is called "home" on both machines.
abbrev home_rule : RouteRule
home_rule = record new_rule { outbound_id = pos 5; network = "tcp" }

parse_rule_object-to_share_json_example :
    parse_rule_object plain one_profile (to_share_json plain one_profile home_rule).1 []
    ≡ some (imported (pos 5) (fix_action home_rule), [])
unfolding fix_action view_outbound get_outbound_id
parse_rule_object-to_share_json_example =
    parse_rule_object-to_share_json plain one_profile one_profile home_rule [] (pos 5)
      (new_rule-IsTidy plain) (λ _. ("home", refl, refl, λ h. cc))
