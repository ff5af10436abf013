-- ===== src/Routing/SimpleRuleExamples.antt =====
-- Runs of the simple rules (src/database/entities/RouteProfile.cpp) on small inputs.
use free_link_app.Common.{ℤ_eq, String, String_eq, ◌≡◌, refl, [], ◌∷◌, keep}
use free_link_app.Qt.{plain}
use free_link_app.Text.{starts_with, cut, split_lines}
use free_link_app.Routing.RuleType.{
  proxy_id, simple_address_proxy, simple_address_block, simple_process_name_proxy,
}
use free_link_app.Routing.Rule.{RouteRule, new_rule}
use free_link_app.Routing.Profiles.{one_profile}
use free_link_app.Routing.RuleJson.{is_empty_rule}
use free_link_app.Routing.SimpleRules.{
  proxy, get_simple_rules, get_simple_rule_by_type, set_first, reset_simple_rule, reset_type,
  reset_types, add_simple_rule, add_simple_address_rule, add_simple_process_rule, get_rule_type,
  update_line, update_lines, filter_empty_rules, update_simple_rules, simple_rules_text,
}
use free_link_app.Routing.SimpleRules.Frame.{other, update_simple_rules-others}
use free_link_app.Routing.SimpleRules.Complaints.{update_simple_rules-complaints}

abbrev blocked : RouteRule
blocked = record new_rule {
  rule_type = simple_address_block;
  action = "reject";
  domain = "ads.org" ∷ [];
}

-- Two lines that are taken, a blank one and one that is not.
abbrev edited : String
edited = "domain:a.org\nprocessName:ssh\n\nport:22"

update_edited :
    (update_simple_rules plain one_profile edited proxy (blocked ∷ [])).0
    ≡ blocked
      ∷ record new_rule {
        rule_type = simple_address_proxy;
        name = "Simple Address Proxy";
        outbound_id = proxy_id;
        domain = "a.org" ∷ [];
      }
      ∷ record new_rule {
        rule_type = simple_process_name_proxy;
        name = "Simple Process Name Proxy";
        outbound_id = proxy_id;
        process_name = "ssh" ∷ [];
      }
      ∷ []
unfolding update_simple_rules update_lines update_line split_lines cut starts_with get_rule_type
    add_simple_rule add_simple_address_rule add_simple_process_rule reset_types reset_type
    reset_simple_rule get_simple_rules get_simple_rule_by_type set_first filter_empty_rules
    is_empty_rule
update_edited = refl

text_of_updated :
    simple_rules_text proxy (update_simple_rules plain one_profile edited proxy (blocked ∷ [])).0
    ≡ "domain:a.org\nprocessName:ssh\n"
unfolding simple_rules_text
text_of_updated = rw update_edited refl

update_simple_rules-others_example :
    keep (other proxy) (update_simple_rules plain one_profile edited proxy (blocked ∷ [])).0
    ≡ blocked ∷ []
update_simple_rules-others_example =
    update_simple_rules-others plain one_profile edited proxy (blocked ∷ [])

update_simple_rules-complaints_example :
    (update_simple_rules plain one_profile edited proxy (blocked ∷ [])).1 ≡ "invalid rule:port:22\n"
unfolding split_lines cut
update_simple_rules-complaints_example =
    update_simple_rules-complaints plain one_profile edited proxy (blocked ∷ [])
