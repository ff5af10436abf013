-- ===== src/Routing/SimpleRules/Frame.antt =====
-- What an update of the simple rules leaves alone (src/database/entities/RouteProfile.cpp).
use mathlib.Core.List.{append-nil}
use free_link_app.Common.{
  ◌≡◌, refl, ap, ◌∙◌, String, String_eq, Bool, true, not, Option, none, some, List, [], ◌∷◌, keep,
  arith, keep-append, if_rule, if_split, All, ℤ_eq, map, Option-cases, inl, inr, Bool-cases,
}
use free_link_app.Qt.{Qt}
use free_link_app.Text.{split_lines}
use free_link_app.Routing.RuleType.{RuleType, same_type, is_custom}
use free_link_app.Routing.Rule.{RouteRule}
use free_link_app.Routing.Rule.Values.{is_blank}
use free_link_app.Routing.Profiles.{Profiles}
use free_link_app.Routing.SimpleRules.{
  SimpleAction, bypass, block, proxy, warp_bypass, simple_types, get_simple_rules,
  get_simple_rule_by_type, set_first, reset_simple_rule, reset_type, reset_types, add_simple_rule,
  get_rule_type, Edit, update_line, update_lines, update_simple_rules, has_type, append_clean,
  put_added,
}
use free_link_app.Routing.SimpleRules.Emptying.{bare, settled, filter_empty_rules-kept}
use free_link_app.Routing.SimpleRules.Retyping.{ours, Retypes, added_type, get_rule_type-ours}

-- The rules of no kind that the action has.
abbrev pub other : SimpleAction → RouteRule → Bool
other a r = not (has_type (simple_types a) r.rule_type)

pub has_type-same :
    (ts : List RuleType) (s t : RuleType) → same_type s t ≡ true → has_type ts s ≡ has_type ts t
has_type-same [] s t h = refl
has_type-same (u ∷ us) s t h = ground (arith, has_type-same us s t h)

pub found_type :
    (t : RuleType) (rs : List RouteRule) (r : RouteRule)
    → get_simple_rule_by_type t rs ≡ some r
    → same_type r.rule_type t ≡ true
unfolding get_simple_rule_by_type
found_type t [] r h = cc
found_type t (x ∷ xs) r h = elim (Bool-cases (same_type x.rule_type t)) [
  | inl e ↦ ground arith
  | inr e ↦ found_type t xs r (rw e at h)
]

module _ (a : SimpleAction) where
  others-set_first :
      (t : RuleType) (s : RouteRule) (rs : List RouteRule)
      → ours a t ≡ true
      → ours a s.rule_type ≡ true
      → keep (other a) (set_first t s rs) ≡ keep (other a) rs
  unfolding set_first
  others-set_first t s [] h k = refl
  others-set_first t s (r ∷ rs) h k = elim (Bool-cases (same_type r.rule_type t)) [
    | inl e ↦ rw (e, k, has_type-same (simple_types a) r.rule_type t e, h) refl
    | inr e ↦ rw (e, others-set_first t s rs h k) refl
  ]

  pub reset_simple_rule-type :
      (r : RouteRule) → ours a (reset_simple_rule r).rule_type ≡ ours a r.rule_type
  unfolding reset_simple_rule
  reset_simple_rule-type r =
      elim (Option-cases (get_simple_rule_by_type r.rule_type get_simple_rules)) [
        | inl e ↦ rw (e, reset_simple_rule) refl
        | inr (c, e) ↦
            rw (e, reset_simple_rule)
              (has_type-same (simple_types a) c.rule_type r.rule_type
                (found_type r.rule_type get_simple_rules c e))
      ]

  others-append :
      (o : Option RouteRule) (rs : List RouteRule)
      → ((s : RouteRule) → o ≡ some s → ours a s.rule_type ≡ true)
      → keep (other a) (append_clean o rs) ≡ keep (other a) rs
  others-append none rs h = refl
  others-append (some s) rs h = rw (keep-append (other a) rs (s ∷ []), h s refl) (append-nil _)

  others-reset_type :
      (t : RuleType) (rs : List RouteRule)
      → ours a t ≡ true
      → keep (other a) (reset_type t rs) ≡ keep (other a) rs
  unfolding reset_type
  others-reset_type t rs h = elim (Option-cases (get_simple_rule_by_type t rs)) [
    | inl e ↦
        rw (e, reset_type)
          (others-append _ rs (λ s k.
            has_type-same (simple_types a) s.rule_type t (found_type t get_simple_rules s k) ∙ h))
    | inr (r, e) ↦
        rw (e, reset_type)
          (others-set_first t _ rs h (
            reset_simple_rule-type r
            ∙ (has_type-same (simple_types a) r.rule_type t (found_type t rs r e) ∙ h)))
  ]

module _ (q : Qt) (a : SimpleAction) where
  -- What a line does to the rules that are not the action's: nothing.
  others-put_added :
      (raw res : String) (t : RuleType) (r : RouteRule) (rs : List RouteRule) (o : Option RouteRule)
      → ours a t ≡ true
      → ours a r.rule_type ≡ true
      → Retypes r o
      → keep (other a) (put_added raw t o (rs, res)).0 ≡ keep (other a) rs
  others-put_added raw res t r rs none h k f = refl
  others-put_added raw res t r rs (some s) h k f =
      others-set_first a t s rs h (ap (ours a) (f s refl) ∙ k)

  others-update_line :
      (raw : String) (e : Edit) → keep (other a) (update_line q a raw e).0 ≡ keep (other a) e.0
  unfolding update_line
  others-update_line raw (rs, res) =
      let t = get_rule_type raw a in
      let Same = λ (d : Edit). keep (other a) d.0 ≡ keep (other a) rs in
      if_rule Same (is_blank q raw) _ _ refl (
        if_split Same (is_custom t) _ _ (λ _. refl)
          (λ c. elim (Option-cases (get_simple_rule_by_type t rs)) [
            | inl e ↦ rw e refl
            | inr (r, e) ↦ rw e (
                others-put_added raw res t r rs (add_simple_rule raw r t)
                  (get_rule_type-ours raw a c)
                  (has_type-same (simple_types a) r.rule_type t (found_type t rs r e)
                    ∙ get_rule_type-ours raw a c)
                  (added_type raw r t))
          ]))

  others-update_lines :
      (ls : List String) (e : Edit) → keep (other a) (update_lines q a ls e).0 ≡ keep (other a) e.0
  unfolding update_lines
  others-update_lines [] e = refl
  others-update_lines (l ∷ ls) e = others-update_lines ls _ ∙ others-update_line l e

module _ (q : Qt) (p : Profiles) (a : SimpleAction) where
  settled-type : (r : RouteRule) → (settled r).rule_type ≡ r.rule_type
  settled-type r =
      if_rule (λ (s : RouteRule). s.rule_type ≡ r.rule_type) (is_custom r.rule_type) _ r refl refl

  -- Whether a rule is the action's does not depend on the order of the two.
  others-settled :
      (rs : List RouteRule)
      → keep (other a) (map settled (keep (λ r. not (bare q p r)) rs))
        ≡ map settled (keep (λ r. not (bare q p r)) (keep (other a) rs))
  others-settled [] = refl
  others-settled (r ∷ rs) = elim (Bool-cases (bare q p r)) [
    | inl b ↦ elim (Bool-cases (other a r)) [
      | inl o ↦ rw (b, o, b) (others-settled rs)
      | inr m ↦ rw (b, m) (others-settled rs)
    ]
    | inr f ↦ elim (Bool-cases (other a r)) [
      | inl o ↦ rw (f, settled-type r, o, f) (ap (λ l. settled r ∷ l) (others-settled rs))
      | inr m ↦ rw (f, settled-type r, m) (others-settled rs)
    ]
  ]

pub simple_types-ours : (a : SimpleAction) → All (λ t. ours a t ≡ true) (simple_types a)
simple_types-ours proxy = (refl, (refl, (refl, tt)))
simple_types-ours bypass = (refl, (refl, (refl, tt)))
simple_types-ours warp_bypass = (refl, (refl, (refl, tt)))
simple_types-ours block = (refl, (refl, (refl, tt)))

others-reset_types :
    (a : SimpleAction) (ts : List RuleType) (rs : List RouteRule)
    → All (λ t. ours a t ≡ true) ts
    → keep (other a) (reset_types ts rs) ≡ keep (other a) rs
unfolding reset_types
others-reset_types a [] rs h = refl
others-reset_types a (t ∷ ts) rs h =
    others-reset_types a ts (reset_type t rs) h.1 ∙ others-reset_type a t rs h.0

-- An update of the simple rules of an action leaves all rules of other kinds, the custom ones too, in
-- their order, but for those that are empty, which it drops: a rule of a simple kind as it was, a
-- custom rule with its due action (a route to the DNS or the block outbound becomes hijack-dns or reject).
-- Empty is a simple rule without addresses or without processes, and a custom one whose action is
-- route-options or hijack-dns and whose JSON has at most one key.
pub update_simple_rules-others :
    (q : Qt) (p : Profiles) (content : String) (a : SimpleAction) (rules : List RouteRule)
    → keep (other a) (update_simple_rules q p content a rules).0
      ≡ map settled (keep (λ r. not (bare q p r)) (keep (other a) rules))
unfolding update_simple_rules
update_simple_rules-others q p content a rules =
    let dropped = λ (rs : List RouteRule). map settled (keep (λ r. not (bare q p r)) rs) in
    ap (keep (other a)) (filter_empty_rules-kept q p _)
    ∙ (others-settled q p a _
        ∙ ap dropped (
            others-update_lines q a (split_lines content) _
            ∙ others-reset_types a (simple_types a) rules (simple_types-ours a)))
