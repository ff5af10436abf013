-- ===== src/Routing/SimpleRules/Retyping.antt =====
-- A line of the simple rules keeps the kind of the rule that takes it (RouteProfile.cpp,
-- `add_simple_rule`, `get_rule_type`).
use free_link_app.Common.{
  ◌≡◌, refl, String, String_eq, Bool, true, false, Option, none, some, if_rule, ℤ_eq, Option-cases,
  inl, inr, ◌==◌,
}
use free_link_app.Text.{cut, starts_with}
use free_link_app.Routing.RuleType.{RuleType, custom, is_custom, is_address}
use free_link_app.Routing.Rule.{RouteRule}
use free_link_app.Routing.SimpleRules.{
  SimpleAction, bypass, block, proxy, warp_bypass, simple_types, add_simple_rule,
  add_simple_address_rule, add_simple_process_rule, get_rule_type, has_type, address_type,
  process_name_type, process_path_type,
}

-- Whether an action has a kind of rule.
abbrev pub ours : SimpleAction → RuleType → Bool
ours a t = has_type (simple_types a) t

-- What a line leaves of a rule, if it is taken: a rule of the same kind.
abbrev pub Retypes : RouteRule → Option RouteRule → Type 0
Retypes r o = (s : RouteRule) → o ≡ some s → s.rule_type ≡ r.rule_type

Retypes-none : (r : RouteRule) → Retypes r none
Retypes-none r s h = cc

Retypes-some : (r x : RouteRule) → x.rule_type ≡ r.rule_type → Retypes r (some x)
Retypes-some r x e s h = cc

address-Retypes : (content : String) (r : RouteRule) → Retypes r (add_simple_address_rule content r)
unfolding add_simple_address_rule
address-Retypes content r = elim (Option-cases (cut content)) [
  | inl e ↦ rw (e, add_simple_address_rule) (Retypes-none r)
  | inr ((l, v), e) ↦
      rw (e, add_simple_address_rule)
        (if_rule (Retypes r) (l == "domain") _ _ (Retypes-some r _ refl) (
          if_rule (Retypes r) (l == "suffix") _ _ (Retypes-some r _ refl) (
            if_rule (Retypes r) (l == "keyword") _ _ (Retypes-some r _ refl) (
              if_rule (Retypes r) (l == "regex") _ _ (Retypes-some r _ refl) (
                if_rule (Retypes r) (l == "ruleset") _ _ (Retypes-some r _ refl) (
                  if_rule (Retypes r) (l == "ip") _ _ (Retypes-some r _ refl) (Retypes-none r)))))))
]

process-Retypes : (content : String) (r : RouteRule) → Retypes r (add_simple_process_rule content r)
unfolding add_simple_process_rule
process-Retypes content r = elim (Option-cases (cut content)) [
  | inl e ↦ rw (e, add_simple_process_rule) (Retypes-none r)
  | inr ((l, v), e) ↦
      rw (e, add_simple_process_rule)
        (if_rule (Retypes r) (l == "processPath") _ _ (Retypes-some r _ refl)
          (if_rule (Retypes r) (l == "processName") _ _ (Retypes-some r _ refl) (Retypes-none r)))
]

pub added_type :
    (content : String) (r : RouteRule) (t : RuleType) → Retypes r (add_simple_rule content r t)
unfolding add_simple_rule
added_type content r t =
    if_rule (Retypes r) (is_address t) _ _ (address-Retypes content r) (process-Retypes content r)

-- A line is given a kind of the action, or the custom kind.
pub get_rule_type-cases :
    (content : String) (a : SimpleAction) (P : RuleType → Type 0)
    → P (address_type a)
    → P (process_name_type a)
    → P (process_path_type a)
    → P custom
    → P (get_rule_type content a)
unfolding get_rule_type
get_rule_type-cases content a P x y z w = if_rule P _ _ _ x (
    if_rule P (starts_with content "processName") _ _ y
      (if_rule P (starts_with content "processPath") _ _ z w))

address_ours : (a : SimpleAction) → ours a (address_type a) ≡ true
address_ours proxy = refl
address_ours bypass = refl
address_ours warp_bypass = refl
address_ours block = refl

name_ours : (a : SimpleAction) → ours a (process_name_type a) ≡ true
name_ours proxy = refl
name_ours bypass = refl
name_ours warp_bypass = refl
name_ours block = refl

path_ours : (a : SimpleAction) → ours a (process_path_type a) ≡ true
path_ours proxy = refl
path_ours bypass = refl
path_ours warp_bypass = refl
path_ours block = refl

pub get_rule_type-ours :
    (content : String) (a : SimpleAction)
    → is_custom (get_rule_type content a) ≡ false
    → ours a (get_rule_type content a) ≡ true
get_rule_type-ours content a =
    get_rule_type-cases content a (λ t. is_custom t ≡ false → ours a t ≡ true) (λ h. address_ours a)
      (λ h. name_ours a) (λ h. path_ours a) (λ h. cc)
