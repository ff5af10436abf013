-- ===== src/Routing/SimpleRules/Complaints.antt =====
-- What an update of the simple rules complains about (src/database/entities/RouteProfile.cpp).
use free_link_app.Common.{
  ◌≡◌, refl, sym, ap, ◌∙◌, String, String_eq, Bool, true, false, not, ◌||◌, Option, none, some,
  List, [], ◌∷◌, if◌then◌else◌, arith, is_none, Option-cases, Bool-cases, inl, inr, All,
}
use free_link_app.Qt.{Qt}
use free_link_app.Text.{split_lines}
use free_link_app.Routing.RuleType.{RuleType, is_custom, same_type}
use free_link_app.Routing.Rule.{RouteRule, new_rule}
use free_link_app.Routing.Rule.Values.{is_blank}
use free_link_app.Routing.Profiles.{Profiles}
use free_link_app.Routing.SimpleRules.{
  SimpleAction, bypass, block, proxy, warp_bypass, simple_types, get_simple_rule_by_type,
  reset_type, reset_types, add_simple_rule, get_rule_type, Edit, update_line, update_lines,
  update_simple_rules, has_type, put_added, invalid_rule,
}
use free_link_app.Routing.SimpleRules.Retyping.{ours, get_rule_type-ours, added_type, Retypes}
use free_link_app.Routing.SimpleRules.Frame.{found_type}
use free_link_app.Routing.SimpleRules.Lines.{is_labelled, refused-get_rule_type}
use free_link_app.Routing.SimpleRules.Kinds.{
  lacks, lacks-set_first, lacks-same, lacks-reset_type, gains-reset_type,
}

told_if :
    (l res : String) (n b : Bool)
    → n ≡ not b
    → (if n then invalid_rule l res else res) ≡ (if b then res else invalid_rule l res)
told_if l res n true h = rw h refl
told_if l res n false h = rw h refl

-- Every kind of the action has its rule.
abbrev pub Complete : SimpleAction → List RouteRule → Type 0
Complete a rs = (t : RuleType) → ours a t ≡ true → lacks t rs ≡ false

-- A kind is there after the resets when it was there before or is reset.
lacks-reset_types :
    (ts : List RuleType) (t : RuleType) (rs : List RouteRule)
    → lacks t rs ≡ false
    → lacks t (reset_types ts rs) ≡ false
unfolding reset_types
lacks-reset_types [] t rs h = h
lacks-reset_types (u ∷ us) t rs h = lacks-reset_types us t _ (lacks-reset_type t u rs h)

gains-reset_types :
    (ts : List RuleType) (t : RuleType) (rs : List RouteRule)
    → All (λ u. is_custom u ≡ false) ts
    → has_type ts t ≡ true
    → lacks t (reset_types ts rs) ≡ false
unfolding reset_types
gains-reset_types [] t rs c h = cc
gains-reset_types (u ∷ us) t rs c h = elim (Bool-cases (same_type u t)) [
  | inl e ↦
      lacks-reset_types us t _
        (sym (lacks-same t u (reset_type u rs) e) ∙ gains-reset_type u rs c.0)
  | inr e ↦ gains-reset_types us t _ c.1 (ground arith)
]

simple_types-plain : (a : SimpleAction) → All (λ u. is_custom u ≡ false) (simple_types a)
simple_types-plain proxy = (refl, (refl, (refl, tt)))
simple_types-plain bypass = (refl, (refl, (refl, tt)))
simple_types-plain warp_bypass = (refl, (refl, (refl, tt)))
simple_types-plain block = (refl, (refl, (refl, tt)))

reset_types-Complete :
    (a : SimpleAction) (rs : List RouteRule) → Complete a (reset_types (simple_types a) rs)
reset_types-Complete a rs t h = gains-reset_types (simple_types a) t rs (simple_types-plain a) h

module _ (q : Qt) where
  -- The complaints that are due for lines, after those so far.
  abbrev pub complaints : List String → String → String
  complaints [] res = res
  complaints (l ∷ ls) res =
      complaints ls (if is_blank q l || is_labelled l then res else invalid_rule l res)

  module _ (a : SimpleAction) where
    put_added-lem :
        (l res : String) (t : RuleType) (r : RouteRule) (rs : List RouteRule) (o : Option RouteRule)
        → same_type r.rule_type t ≡ true
        → Retypes r o
        → Complete a rs
        → Complete a (put_added l t o (rs, res)).0
          × ((put_added l t o (rs, res)).1 ≡ (if is_none o then invalid_rule l res else res))
    put_added-lem l res t r rs none h f c = (c, refl)
    put_added-lem l res t r rs (some s) h f c =
        (λ u k. lacks-set_first u t s rs (ap (λ x. same_type x t) (f s refl) ∙ h) ∙ c u k, refl)

    update_line-lem :
        (l : String) (e : Edit)
        → Complete a e.0
        → Complete a (update_line q a l e).0
          × ((update_line q a l e).1
              ≡ (if is_blank q l || is_labelled l then e.1 else invalid_rule l e.1))
    unfolding update_line
    update_line-lem l (rs, res) c = elim (Bool-cases (is_blank q l)) [
      | inl b ↦ rw b (c, refl)
      | inr b ↦ elim (Bool-cases (is_custom (get_rule_type l a))) [
        | inl k ↦
            let told : is_labelled l ≡ false = ground (arith, refused-get_rule_type l a new_rule) in
            rw (b, k, told, update_line) (c, refl)
        | inr k ↦ elim (Option-cases (get_simple_rule_by_type (get_rule_type l a) rs)) [
          | inl e ↦
              let there : is_none (get_simple_rule_by_type (get_rule_type l a) rs) ≡ false =
                c (get_rule_type l a) (get_rule_type-ours l a k) in
              cc
          | inr (r, e) ↦
              let o = add_simple_rule l r (get_rule_type l a) in
              let told : is_none o ≡ not (is_labelled l) =
                ground (arith, refused-get_rule_type l a r) in
              let (d, w) =
                put_added-lem l res (get_rule_type l a) r rs o
                  (found_type (get_rule_type l a) rs r e) (added_type l r (get_rule_type l a)) c in
              rw (b, k, e, update_line) (d, w ∙ told_if l res (is_none o) (is_labelled l) told)
        ]
      ]
    ]

    update_lines-lem :
        (ls : List String) (e : Edit)
        → Complete a e.0
        → (update_lines q a ls e).1 ≡ complaints ls e.1
    unfolding update_lines
    update_lines-lem [] e c = refl
    update_lines-lem (l ∷ ls) e c =
        let (d, k) = update_line-lem l e c in
        update_lines-lem ls (update_line q a l e) d ∙ ap (complaints ls) k

-- An update answers with one complaint, "invalid rule:…", for each line that is neither blank nor one
-- of the eight labels followed by a colon, in order, and with nothing else: a labelled line always
-- finds the rule that it belongs to.
pub update_simple_rules-complaints :
    (q : Qt) (p : Profiles) (content : String) (a : SimpleAction) (rules : List RouteRule)
    → (update_simple_rules q p content a rules).1 ≡ complaints q (split_lines content) ""
unfolding update_simple_rules
update_simple_rules-complaints q p content a rules =
    update_lines-lem q a (split_lines content) _ (reset_types-Complete a rules)
