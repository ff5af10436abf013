-- ===== src/Routing/SimpleRules/Lines.antt =====
-- Which lines of the editor an update accepts (src/database/entities/RouteProfile.cpp).
use text.Mathlib.TextEquality.{eq_iff}
use free_link_app.Common.{
  ◌≡◌, refl, ap, ◌∙◌, String, String_eq, Bool, true, false, not, ◌&&◌, ◌||◌, Option, none, some,
  if◌then◌else◌, arith, is_none, Option-cases, Bool-cases, inl, inr, ◌⊎◌, ◌==◌,
}
use free_link_app.Text.{cut, starts_with, glue, cut-glue}
use free_link_app.Routing.RuleType.{RuleType, is_custom, is_address}
use free_link_app.Routing.Rule.{RouteRule}
use free_link_app.Routing.SimpleRules.{
  SimpleAction, bypass, block, proxy, warp_bypass, add_simple_rule, add_simple_address_rule,
  add_simple_process_rule, get_rule_type, address_type, process_name_type, process_path_type,
}

abbrev pub is_address_label : String → Bool
is_address_label l =
    l == "domain"
    || (l == "suffix" || (l == "keyword" || (l == "regex" || (l == "ruleset" || l == "ip"))))

abbrev pub is_process_label : String → Bool
is_process_label l = l == "processPath" || l == "processName"

abbrev has_label : Option (String × String) → Bool
has_label none = false
has_label (some (l, v)) = is_address_label l || is_process_label l

-- A line is a label, a colon and a text.
abbrev pub is_labelled : String → Bool
is_labelled line = has_label (cut line)

or_rule : (b c : Bool) (P : Type 0) → (b ≡ true → P) → (c ≡ true → P) → (b || c) ≡ true → P
or_rule true c P x y h = x refl
or_rule false c P x y h = y h

none_or :
    (c : Bool) (x : RouteRule) (o : Option RouteRule)
    → is_none (if c then some x else o) ≡ (not c && is_none o)
none_or true x o = refl
none_or false x o = refl

module _ (line l v : String) (r : RouteRule) where
  address_takes :
      cut line ≡ some (l, v) → is_none (add_simple_address_rule line r) ≡ not (is_address_label l)
  unfolding add_simple_address_rule
  address_takes h =
      rw (h, add_simple_address_rule)
        (rw
          (
            none_or (l == "domain"),
            none_or (l == "suffix"),
            none_or (l == "keyword"),
            none_or (l == "regex"),
            none_or (l == "ruleset"),
            none_or (l == "ip"),
          )
          (ground arith))

  process_takes :
      cut line ≡ some (l, v) → is_none (add_simple_process_rule line r) ≡ not (is_process_label l)
  unfolding add_simple_process_rule
  process_takes h =
      rw (h, add_simple_process_rule)
        (rw (none_or (l == "processPath"), none_or (l == "processName")) (ground arith))

-- What a labelled line is taken for.
module _ (rest : String) (a : SimpleAction) where
  domain_kind : get_rule_type (glue "domain" rest) a ≡ address_type a
  unfolding get_rule_type starts_with glue
  domain_kind = refl

  suffix_kind : get_rule_type (glue "suffix" rest) a ≡ address_type a
  unfolding get_rule_type starts_with glue
  suffix_kind = refl

  keyword_kind : get_rule_type (glue "keyword" rest) a ≡ address_type a
  unfolding get_rule_type starts_with glue
  keyword_kind = refl

  regex_kind : get_rule_type (glue "regex" rest) a ≡ address_type a
  unfolding get_rule_type starts_with glue
  regex_kind = refl

  ruleset_kind : get_rule_type (glue "ruleset" rest) a ≡ address_type a
  unfolding get_rule_type starts_with glue
  ruleset_kind = refl

  ip_kind : get_rule_type (glue "ip" rest) a ≡ address_type a
  unfolding get_rule_type starts_with glue
  ip_kind = refl

  name_kind : get_rule_type (glue "processName" rest) a ≡ process_name_type a
  unfolding get_rule_type starts_with glue
  name_kind = refl

  path_kind : get_rule_type (glue "processPath" rest) a ≡ process_path_type a
  unfolding get_rule_type starts_with glue
  path_kind = refl

module _ (line l v : String) (a : SimpleAction) (h : cut line ≡ some (l, v)) where
  label_kind :
      (label : String) (t : RuleType)
      → (l == label) ≡ true
      → ((rest : String) → get_rule_type (glue label rest) a ≡ t)
      → get_rule_type line a ≡ t
  label_kind label t e k =
      let (rest, g) = cut-glue line l v h in
      ap (λ s. get_rule_type s a) (g ∙ ap (λ x. glue x rest) ((eq_iff l label).0 e)) ∙ k rest

  address_kind : is_address_label l ≡ true → get_rule_type line a ≡ address_type a
  address_kind e =
      let P = get_rule_type line a ≡ address_type a in
      let as_label =
        λ (label : String)
            (k : (rest : String) → get_rule_type (glue label rest) a ≡ address_type a)
            (b : (l == label) ≡ true).
          label_kind label (address_type a) b k in
      or_rule (l == "domain") _ P (as_label "domain" (λ x. domain_kind x a))
        (or_rule (l == "suffix") _ P (as_label "suffix" (λ x. suffix_kind x a)) (
          or_rule (l == "keyword") _ P (as_label "keyword" (λ x. keyword_kind x a)) (
            or_rule (l == "regex") _ P (as_label "regex" (λ x. regex_kind x a)) (
              or_rule (l == "ruleset") (l == "ip") P (as_label "ruleset" (λ x. ruleset_kind x a))
                (as_label "ip" (λ x. ip_kind x a))))))
        e

  process_kind :
      is_process_label l ≡ true
      → (get_rule_type line a ≡ process_path_type a) ⊎ (get_rule_type line a ≡ process_name_type a)
  process_kind =
      or_rule (l == "processPath") (l == "processName") _
        (λ b. inl (label_kind "processPath" (process_path_type a) b (λ x. path_kind x a)))
        (λ b. inr (label_kind "processName" (process_name_type a) b (λ x. name_kind x a)))

-- The kinds that a label is taken for are of the right sort.
address_sort :
    (a : SimpleAction) → (is_custom (address_type a) ≡ false) × (is_address (address_type a) ≡ true)
address_sort proxy = (refl, refl)
address_sort bypass = (refl, refl)
address_sort warp_bypass = (refl, refl)
address_sort block = (refl, refl)

name_sort :
    (a : SimpleAction)
    → (is_custom (process_name_type a) ≡ false) × (is_address (process_name_type a) ≡ false)
name_sort proxy = (refl, refl)
name_sort bypass = (refl, refl)
name_sort warp_bypass = (refl, refl)
name_sort block = (refl, refl)

path_sort :
    (a : SimpleAction)
    → (is_custom (process_path_type a) ≡ false) × (is_address (process_path_type a) ≡ false)
path_sort proxy = (refl, refl)
path_sort bypass = (refl, refl)
path_sort warp_bypass = (refl, refl)
path_sort block = (refl, refl)

-- A line that is given the kind `t` is refused.
abbrev pub refused : String → RouteRule → RuleType → Bool
refused line r t = is_custom t || is_none (add_simple_rule line r t)

module _ (line : String) (r : RouteRule) (t : RuleType) where
  refused-unlabelled : cut line ≡ none → refused line r t ≡ true
  unfolding add_simple_rule add_simple_address_rule add_simple_process_rule
  refused-unlabelled h =
      let address : add_simple_address_rule line r ≡ none = rw (h, add_simple_address_rule) refl in
      let process : add_simple_process_rule line r ≡ none = rw (h, add_simple_process_rule) refl in
      ground (arith, address, process)

  refused_address :
      (l v : String)
      → cut line ≡ some (l, v)
      → (is_custom t ≡ false) × (is_address t ≡ true)
      → refused line r t ≡ not (is_address_label l)
  unfolding add_simple_rule
  refused_address l v h s = rw (s.0, s.1) (address_takes line l v r h)

  refused_process :
      (l v : String)
      → cut line ≡ some (l, v)
      → (is_custom t ≡ false) × (is_address t ≡ false)
      → refused line r t ≡ not (is_process_label l)
  unfolding add_simple_rule
  refused_process l v h s = rw (s.0, s.1) (process_takes line l v r h)

  refused_unknown :
      (l v : String)
      → cut line ≡ some (l, v)
      → is_address_label l ≡ false
      → is_process_label l ≡ false
      → refused line r t ≡ true
  unfolding add_simple_rule
  refused_unknown l v h d e = elim (Bool-cases (is_custom t)) [
    | inl c ↦ rw c refl
    | inr c ↦ elim (Bool-cases (is_address t)) [
      | inl b ↦ refused_address l v h (c, b) ∙ ap not d
      | inr b ↦ refused_process l v h (c, b) ∙ ap not e
    ]
  ]

-- A line is refused unless it is labelled, whatever the action and the rule.
pub refused-get_rule_type :
    (line : String) (a : SimpleAction) (r : RouteRule)
    → refused line r (get_rule_type line a) ≡ not (is_labelled line)
refused-get_rule_type line a r = elim (Option-cases (cut line)) [
  | inl h ↦ rw h (refused-unlabelled line r (get_rule_type line a) h)
  | inr ((l, v), h) ↦ rw h (elim (Bool-cases (is_address_label l)) [
    | inl b ↦
        let k = address_kind line l v a h b in
        rw k (refused_address line r (address_type a) l v h (address_sort a) ∙ rw b refl)
    | inr b ↦ elim (Bool-cases (is_process_label l)) [
      | inl c ↦ elim (process_kind line l v a h c) [
        | inl k ↦
            rw k (refused_process line r (process_path_type a) l v h (path_sort a) ∙ rw (b, c) refl)
        | inr k ↦
            rw k (refused_process line r (process_name_type a) l v h (name_sort a) ∙ rw (b, c) refl)
      ]
      | inr c ↦ refused_unknown line r (get_rule_type line a) l v h b c ∙ rw (b, c) refl
    ]
  ])
]
