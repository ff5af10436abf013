-- ===== src/Routing/SimpleRules/Kinds.antt =====
-- Which kinds of simple rules there are while they are edited (src/database/entities/RouteProfile.cpp).
use free_link_app.Common.{
  ◌≡◌, refl, ◌∙◌, String_eq, Bool, true, false, ◌&&◌, Option, none, some, List, [], ◌∷◌, ◌++◌,
  arith, is_none, Option-cases, Bool-cases, inl, inr,
}
use free_link_app.Routing.RuleType.{
  RuleType, custom, is_custom, same_type, simple_address_proxy, simple_address_bypass,
  simple_address_block, simple_process_name_proxy, simple_process_name_bypass,
  simple_process_name_block, simple_process_path_proxy, simple_process_path_bypass,
  simple_process_path_block, simple_address_warp_bypass, simple_process_name_warp_bypass,
  simple_process_path_warp_bypass,
}
use free_link_app.Routing.Rule.{RouteRule}
use free_link_app.Routing.SimpleRules.{
  get_simple_rules, get_simple_rule_by_type, set_first, reset_simple_rule, reset_type, append_clean,
}
use free_link_app.Routing.SimpleRules.Frame.{found_type}

-- There is no rule of a kind.
abbrev pub lacks : RuleType → List RouteRule → Bool
lacks t rs = is_none (get_simple_rule_by_type t rs)

module _ (t : RuleType) where
  lacks-append : (rs xs : List RouteRule) → lacks t (rs ++ xs) ≡ (lacks t rs && lacks t xs)
  unfolding get_simple_rule_by_type
  lacks-append [] xs = refl
  lacks-append (r ∷ rs) xs = elim (Bool-cases (same_type r.rule_type t)) [
    | inl e ↦ rw e refl
    | inr e ↦ rw e (lacks-append rs xs)
  ]

  -- A rule is replaced by one of its kind, so no kind comes or goes.
  pub lacks-set_first :
      (u : RuleType) (s : RouteRule) (rs : List RouteRule)
      → same_type s.rule_type u ≡ true
      → lacks t (set_first u s rs) ≡ lacks t rs
  unfolding get_simple_rule_by_type set_first
  lacks-set_first u s [] h = refl
  lacks-set_first u s (r ∷ rs) h = elim (Bool-cases (same_type r.rule_type u)) [
    | inl e ↦
        let same : same_type s.rule_type t ≡ same_type r.rule_type t = ground arith in
        rw (e, same) (ground (arith))
    | inr e ↦ elim (Bool-cases (same_type r.rule_type t)) [
      | inl k ↦ rw (e, k) refl
      | inr k ↦ rw (e, k) (lacks-set_first u s rs h)
    ]
  ]

  pub lacks-same :
      (u : RuleType) (rs : List RouteRule) → same_type u t ≡ true → lacks u rs ≡ lacks t rs
  unfolding get_simple_rule_by_type
  lacks-same u [] h = refl
  lacks-same u (r ∷ rs) h =
      let same : same_type r.rule_type u ≡ same_type r.rule_type t = ground arith in
      elim (Bool-cases (same_type r.rule_type t)) [
        | inl k ↦ rw (same, k) refl
        | inr k ↦ rw (same, k) (lacks-same u rs h)
      ]

reset_same : (r : RouteRule) → same_type (reset_simple_rule r).rule_type r.rule_type ≡ true
unfolding reset_simple_rule
reset_same r = elim (Option-cases (get_simple_rule_by_type r.rule_type get_simple_rules)) [
  | inl e ↦ rw (e, reset_simple_rule) (ground arith)
  | inr (c, e) ↦ rw (e, reset_simple_rule) (found_type r.rule_type get_simple_rules c e)
]

lacks-append_clean :
    (t : RuleType) (o : Option RouteRule) (rs : List RouteRule)
    → lacks t rs ≡ false
    → lacks t (append_clean o rs) ≡ false
lacks-append_clean t none rs h = h
lacks-append_clean t (some s) rs h = rw (lacks-append t rs (s ∷ []), h) refl

-- A reset takes no kind away.
pub lacks-reset_type :
    (t u : RuleType) (rs : List RouteRule) → lacks t rs ≡ false → lacks t (reset_type u rs) ≡ false
unfolding reset_type
lacks-reset_type t u rs h = elim (Option-cases (get_simple_rule_by_type u rs)) [
  | inl e ↦ rw (e, reset_type) (lacks-append_clean t _ rs h)
  | inr (r, e) ↦
      let same : same_type (reset_simple_rule r).rule_type u ≡ true =
        ground (arith, reset_same r, found_type u rs r e) in
      rw (e, reset_type) (lacks-set_first t u _ rs same ∙ h)
]

clean_lacks : (t : RuleType) → is_custom t ≡ false → lacks t get_simple_rules ≡ false
unfolding get_simple_rules get_simple_rule_by_type
clean_lacks custom h = cc
clean_lacks simple_address_proxy h = refl
clean_lacks simple_address_bypass h = refl
clean_lacks simple_address_block h = refl
clean_lacks simple_process_name_proxy h = refl
clean_lacks simple_process_name_bypass h = refl
clean_lacks simple_process_name_block h = refl
clean_lacks simple_process_path_proxy h = refl
clean_lacks simple_process_path_bypass h = refl
clean_lacks simple_process_path_block h = refl
clean_lacks simple_address_warp_bypass h = refl
clean_lacks simple_process_name_warp_bypass h = refl
clean_lacks simple_process_path_warp_bypass h = refl

clean_found :
    (t : RuleType) (o : Option RouteRule) (rs : List RouteRule)
    → get_simple_rule_by_type t get_simple_rules ≡ o
    → is_none o ≡ false
    → lacks t (append_clean o rs) ≡ false
unfolding get_simple_rule_by_type
clean_found t none rs e h = cc
clean_found t (some s) rs e h =
    rw (lacks-append t rs (s ∷ []), found_type t get_simple_rules s e) (ground arith)

-- A reset leaves a rule of its kind.
pub gains-reset_type :
    (t : RuleType) (rs : List RouteRule) → is_custom t ≡ false → lacks t (reset_type t rs) ≡ false
unfolding reset_type
gains-reset_type t rs c = elim (Option-cases (get_simple_rule_by_type t rs)) [
  | inl e ↦ rw (e, reset_type) (clean_found t _ rs refl (clean_lacks t c))
  | inr (r, e) ↦
      let same : same_type (reset_simple_rule r).rule_type t ≡ true =
        ground (arith, reset_same r, found_type t rs r e) in
      let there : lacks t rs ≡ false = rw e refl in
      rw (e, reset_type) (lacks-set_first t t _ rs same ∙ there)
]
