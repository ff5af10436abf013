-- ===== src/Routing/SimpleRules.antt =====
-- The simple rules of src/database/entities/RouteProfile.cpp: one rule per kind of condition and
-- action, edited as lines of text. `Rules` holds shared pointers; the first rule of a kind is the one
-- that is edited in place.
pub mod Retyping
pub mod Emptying
pub mod Frame
pub mod Lines
pub mod Kinds
pub mod Complaints
use free_link_app.Common.{
  ℤ, String, String_eq, Bool, true, false, not, ◌&&◌, ◌||◌, Option, none, some, List, [], ◌∷◌, ◌++◌,
  Eq, ◌==◌, if◌then◌else◌, contains, ◌<>◌,
}
use free_link_app.Qt.{Qt}
use free_link_app.Text.{starts_with, cut, split_lines}
use free_link_app.Routing.RuleType.{
  RuleType, custom, simple_address_proxy, simple_address_bypass, simple_address_block,
  simple_process_name_proxy, simple_process_name_bypass, simple_process_name_block,
  simple_process_path_proxy, simple_process_path_bypass, simple_process_path_block,
  simple_address_warp_bypass, simple_process_name_warp_bypass, simple_process_path_warp_bypass,
  proxy_id, direct_id, warp_bypass_id, is_address, is_custom, same_type, rule_type_to_string,
}
use free_link_app.Routing.Rule.{RouteRule, new_rule}
use free_link_app.Routing.Rule.Values.{is_blank}
use free_link_app.Routing.Profiles.{Profiles}
use free_link_app.Routing.RuleJson.{is_empty_rule}

pub data SimpleAction : Type 0 where
  bypass block proxy warp_bypass : SimpleAction

-- The kinds of rules that an action has.
abbrev pub simple_types : SimpleAction → List RuleType
simple_types proxy =
    simple_address_proxy ∷ simple_process_name_proxy ∷ simple_process_path_proxy ∷ []
simple_types bypass =
    simple_address_bypass ∷ simple_process_name_bypass ∷ simple_process_path_bypass ∷ []
simple_types warp_bypass =
    simple_address_warp_bypass ∷ simple_process_name_warp_bypass ∷ simple_process_path_warp_bypass
    ∷ []
simple_types block =
    simple_address_block ∷ simple_process_name_block ∷ simple_process_path_block ∷ []

abbrev simple_rule : RuleType → String → ℤ → RouteRule
simple_rule t action id = record new_rule {
  rule_type = t;
  action = action;
  outbound_id = id;
  name = rule_type_to_string t;
}

-- get_simple_rules
unfoldable pub get_simple_rules : List RouteRule
unfolding rule_type_to_string
get_simple_rules =
    simple_rule simple_address_proxy "route" proxy_id
    ∷ simple_rule simple_address_bypass "route" direct_id
    ∷ simple_rule simple_address_block "reject" direct_id
    ∷ simple_rule simple_process_name_proxy "route" proxy_id
    ∷ simple_rule simple_process_name_bypass "route" direct_id
    ∷ simple_rule simple_process_name_block "reject" direct_id
    ∷ simple_rule simple_process_path_proxy "route" proxy_id
    ∷ simple_rule simple_process_path_bypass "route" direct_id
    ∷ simple_rule simple_process_path_block "reject" direct_id
    ∷ simple_rule simple_address_warp_bypass "route" warp_bypass_id
    ∷ simple_rule simple_process_name_warp_bypass "route" warp_bypass_id
    ∷ simple_rule simple_process_path_warp_bypass "route" warp_bypass_id
    ∷ []

-- The first rule of a kind, as get_simple_rule_by_type finds it.
unfoldable pub get_simple_rule_by_type : RuleType → List RouteRule → Option RouteRule
get_simple_rule_by_type t [] = none
get_simple_rule_by_type t (r ∷ rs) =
    if same_type r.rule_type t then some r else get_simple_rule_by_type t rs

-- The write through the pointer to the first rule of a kind.
unfoldable pub set_first : RuleType → RouteRule → List RouteRule → List RouteRule
set_first t s [] = []
set_first t s (r ∷ rs) = if same_type r.rule_type t then s ∷ rs else r ∷ set_first t s rs

-- reset_simple_rule
unfoldable pub reset_simple_rule : RouteRule → RouteRule
reset_simple_rule rule = elim (get_simple_rule_by_type rule.rule_type get_simple_rules) [
  | none ↦ rule
  | some r ↦ r
]

-- The loop of ResetSimpleRule over the clean rules.
abbrev pub append_clean : Option RouteRule → List RouteRule → List RouteRule
append_clean none rules = rules
append_clean (some r) rules = rules ++ r ∷ []

-- ResetSimpleRule
unfoldable pub reset_type : RuleType → List RouteRule → List RouteRule
unfolding get_simple_rule_by_type set_first reset_simple_rule
reset_type t rules = elim (get_simple_rule_by_type t rules) [
  | none ↦ append_clean (get_simple_rule_by_type t get_simple_rules) rules
  | some r ↦ set_first t (reset_simple_rule r) rules
]

unfoldable pub reset_types : List RuleType → List RouteRule → List RouteRule
unfolding reset_type
reset_types [] rules = rules
reset_types (t ∷ ts) rules = reset_types ts (reset_type t rules)

-- if (!list.contains(address)) list.append(address)
abbrev pub append_address : String → List String → List String
append_address a v = if contains v a then v else v ++ a ∷ []

-- add_simple_address_rule, `none` where it returns false
unfoldable pub add_simple_address_rule : String → RouteRule → Option RouteRule
add_simple_address_rule content r = elim (cut content) [
  | none ↦ none
  | some (sub_type, address) ↦
      if sub_type == "domain"
      then some (record r { domain = append_address address r.domain })
      else if sub_type == "suffix"
      then some (record r { domain_suffix = append_address address r.domain_suffix })
      else if sub_type == "keyword"
      then some (record r { domain_keyword = append_address address r.domain_keyword })
      else if sub_type == "regex"
      then some (record r { domain_regex = append_address address r.domain_regex })
      else if sub_type == "ruleset"
      then some (record r { rule_set = append_address address r.rule_set })
      else if sub_type == "ip"
      then some (record r { ip_cidr = append_address address r.ip_cidr })
      else none
]

-- add_simple_process_rule, `none` where it returns false
unfoldable pub add_simple_process_rule : String → RouteRule → Option RouteRule
add_simple_process_rule content r = elim (cut content) [
  | none ↦ none
  | some (prefix, address) ↦
      if prefix == "processPath"
      then some (record r { process_path = append_address address r.process_path })
      else if prefix == "processName"
      then some (record r { process_name = append_address address r.process_name })
      else none
]

-- add_simple_rule
unfoldable pub add_simple_rule : String → RouteRule → RuleType → Option RouteRule
unfolding add_simple_address_rule add_simple_process_rule
add_simple_rule content r t =
    if is_address t then add_simple_address_rule content r else add_simple_process_rule content r

abbrev pub address_type : SimpleAction → RuleType
address_type proxy = simple_address_proxy
address_type bypass = simple_address_bypass
address_type warp_bypass = simple_address_warp_bypass
address_type block = simple_address_block

abbrev pub process_name_type : SimpleAction → RuleType
process_name_type proxy = simple_process_name_proxy
process_name_type bypass = simple_process_name_bypass
process_name_type warp_bypass = simple_process_name_warp_bypass
process_name_type block = simple_process_name_block

abbrev pub process_path_type : SimpleAction → RuleType
process_path_type proxy = simple_process_path_proxy
process_path_type bypass = simple_process_path_bypass
process_path_type warp_bypass = simple_process_path_warp_bypass
process_path_type block = simple_process_path_block

-- get_rule_type
unfoldable pub get_rule_type : String → SimpleAction → RuleType
get_rule_type content action =
    if starts_with content "domain"
      || (starts_with content "suffix"
          || (starts_with content "keyword"
              || (starts_with content "regex"
                  || (starts_with content "ruleset" || starts_with content "ip"))))
    then address_type action
    else if starts_with content "processName"
    then process_name_type action
    else if starts_with content "processPath"
    then process_path_type action
    else custom

-- One line of the edited text: the rules and the complaints so far.
abbrev pub Edit : Type 0
Edit = List RouteRule × String

abbrev pub invalid_rule : String → String → String
invalid_rule raw res = res <> ("invalid rule:" <> (raw <> "\n"))

abbrev pub put_added : String → RuleType → Option RouteRule → Edit → Edit
put_added raw t none (rules, res) = (rules, invalid_rule raw res)
put_added raw t (some s) (rules, res) = (set_first t s rules, res)

module _ (q : Qt) where
  -- The body of the loop of UpdateSimpleRules.
  unfoldable pub update_line : SimpleAction → String → Edit → Edit
  unfolding set_first
  update_line action raw (rules, res) =
      let t = get_rule_type raw action in
      if is_blank q raw
      then (rules, res)
      else if is_custom t
      then (rules, invalid_rule raw res)
      else elim (get_simple_rule_by_type t rules) [
        | none ↦ (
          rules,
          res <> ("internal error, failed to get rule for: " <> (rule_type_to_string t <> "\n")),
        )
        | some r ↦ put_added raw t (add_simple_rule raw r t) (rules, res)
      ]

  unfoldable pub update_lines : SimpleAction → List String → Edit → Edit
  unfolding update_line
  update_lines action [] e = e
  update_lines action (l ∷ ls) e = update_lines action ls (update_line action l e)

  -- FilterEmptyRules; isEmpty may turn the action of a rule that stays.
  unfoldable pub filter_empty_rules : Profiles → List RouteRule → List RouteRule
  filter_empty_rules p [] = []
  filter_empty_rules p (r ∷ rs) =
      let (s, empty) = is_empty_rule q p r in
      let rest = filter_empty_rules p rs in if not empty then s ∷ rest else rest

  -- UpdateSimpleRules
  unfoldable pub update_simple_rules : Profiles → String → SimpleAction → List RouteRule → Edit
  unfolding reset_types update_lines filter_empty_rules
  update_simple_rules p content action rules =
      let (rs, res) =
        update_lines action (split_lines content) (reset_types (simple_types action) rules, "") in
      (filter_empty_rules p rs, res)

abbrev labelled : String → List String → String
labelled label [] = ""
labelled label (v ∷ vs) = label <> (v <> ("\n" <> labelled label vs))

-- The lines of one rule.
abbrev pub simple_text : RouteRule → String
simple_text r =
    labelled "domain:" r.domain
    <> (labelled "suffix:" r.domain_suffix
        <> (labelled "keyword:" r.domain_keyword
            <> (labelled "regex:" r.domain_regex
                <> (labelled "ruleset:" r.rule_set
                    <> (labelled "ip:" r.ip_cidr
                        <> (labelled "processName:" r.process_name
                            <> labelled "processPath:" r.process_path))))))

abbrev pub has_type : List RuleType → RuleType → Bool
has_type [] t = false
has_type (s ∷ ss) t = same_type s t || has_type ss t

-- GetSimpleRules
unfoldable pub simple_rules_text : SimpleAction → List RouteRule → String
simple_rules_text action [] = ""
simple_rules_text action (r ∷ rs) =
    let rest = simple_rules_text action rs in
    if has_type (simple_types action) r.rule_type then simple_text r <> rest else rest
