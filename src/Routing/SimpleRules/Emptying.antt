-- ===== src/Routing/SimpleRules/Emptying.antt =====
-- What an update of the simple rules drops at its end (src/database/entities/RouteProfile.cpp).
use text.Mathlib.TextEquality.{eq_iff}
use mathlib.Core.Path.{ap₂}
use free_link_app.Common.{
  ◌≡◌, refl, sym, ap, ◌∙◌, String, String_eq, Bool, true, false, not, List, [], ◌∷◌, if◌then◌else◌,
  keep, arith, ℤ_eq, is_empty, map, leb, ◌||◌, ◌&&◌, ◌++◌, inl, inr, Bool-cases, ◌==◌,
}
use free_link_app.Qt.{Qt}
use free_link_app.Routing.RuleType.{is_custom, is_address, dns_id, block_id}
use free_link_app.Routing.Rule.{RouteRule}
use free_link_app.Routing.Profiles.{Profiles}
use free_link_app.Routing.RuleJson.{is_empty_rule, get_rule_json, fix_action}
use free_link_app.Json.{count_keys}
use free_link_app.Routing.RuleJson.Emptiness.{custom_rule_not_empty}
use free_link_app.Routing.SimpleRules.{filter_empty_rules}

-- The action of a custom rule: a route to the DNS or the block outbound becomes an action of its own.
abbrev pub due_action : RouteRule → String
due_action r =
    if r.action == "route" && r.outbound_id == dns_id
    then "hijack-dns"
    else if r.action == "route" && r.outbound_id == block_id
    then "reject"
    else r.action

-- The update gives custom rules their due action, and leaves all others.
abbrev pub settled : RouteRule → RouteRule
settled r = if is_custom r.rule_type then record r { action = due_action r } else r

-- A simple rule is bare when it has no address, or no process; a custom one, when its action is
-- route-options or hijack-dns and its JSON has at most one key.
abbrev pub bare : Qt → Profiles → RouteRule → Bool
bare q p r =
    if is_custom r.rule_type
    then (due_action r == "route-options" || due_action r == "hijack-dns")
      && leb (count_keys (get_rule_json q p false "" r).1) 1
    else if is_address r.rule_type
    then is_empty (
        r.domain
        ++ (r.domain_suffix ++ (r.domain_keyword ++ (r.domain_regex ++ (r.rule_set ++ r.ip_cidr)))))
    else is_empty (r.process_name ++ r.process_path)

fix_action-due : (r : RouteRule) → fix_action r ≡ record r { action = due_action r }
unfolding fix_action
fix_action-due r = elim (Bool-cases (r.action == "route")) [
  | inr e ↦ rw e refl
  | inl e ↦ elim (Bool-cases (r.outbound_id == dns_id)) [
    | inl d ↦ rw (e, d) refl
    | inr d ↦ elim (Bool-cases (r.outbound_id == block_id)) [
      | inl b ↦ rw (e, d, b) refl
      | inr b ↦ rw (e, d, b) refl
    ]
  ]
]

is_empty_rule-custom :
    (q : Qt) (p : Profiles) (r : RouteRule)
    → is_custom r.rule_type ≡ true
    → (is_empty_rule q p r).1 ≡ (
        ((fix_action r).action == "route-options" || (fix_action r).action == "hijack-dns")
        && leb (count_keys (get_rule_json q p false "" r).1) 1)
unfolding is_empty_rule get_rule_json
is_empty_rule-custom q p r c =
    let act = (fix_action r).action in
    elim (Bool-cases (act == "route-options")) [
      | inl e ↦ rw (c, (eq_iff act "route-options").0 e) refl
      | inr o ↦ elim (Bool-cases (act == "hijack-dns")) [
        | inl e ↦ rw (c, (eq_iff act "hijack-dns").0 e) refl
        | inr d ↦
            let never = (act == "route-options" || act == "hijack-dns") in
            let few = leb (count_keys (get_rule_json q p false "" r).1) 1 in
            let other_action : (never && few) ≡ false = rw (o, d) refl in
            custom_rule_not_empty q p r c (λ e. ground (arith, eq_iff act "route-options"))
              (λ e. ground (arith, eq_iff act "hijack-dns"))
            ∙ sym other_action
      ]
    ]

is_empty_rule-fix_action :
    (q : Qt) (p : Profiles) (r : RouteRule)
    → is_custom r.rule_type ≡ true
    → (is_empty_rule q p r).0 ≡ fix_action r
unfolding is_empty_rule get_rule_json
is_empty_rule-fix_action q p r c = rw c refl

settled_custom :
    (r : RouteRule) → is_custom r.rule_type ≡ true → record r { action = due_action r } ≡ settled r
settled_custom r c = rw c refl

bare_custom :
    (q : Qt) (p : Profiles) (r : RouteRule)
    → is_custom r.rule_type ≡ true
    → ((due_action r == "route-options" || due_action r == "hijack-dns")
        && leb (count_keys (get_rule_json q p false "" r).1) 1)
      ≡ bare q p r
bare_custom q p r c = rw c refl

is_empty_rule-due :
    (q : Qt) (p : Profiles) (r : RouteRule)
    → is_custom r.rule_type ≡ true
    → is_empty_rule q p r ≡ (settled r, bare q p r)
is_empty_rule-due q p r c =
    let few = leb (count_keys (get_rule_json q p false "" r).1) 1 in
    let empty =
      λ (s : RouteRule). (s.action == "route-options" || s.action == "hijack-dns") && few in
    ap₂ (λ (s : RouteRule) (b : Bool). (s, b))
      (is_empty_rule-fix_action q p r c ∙ (fix_action-due r ∙ settled_custom r c))
      (is_empty_rule-custom q p r c ∙ (ap empty (fix_action-due r) ∙ bare_custom q p r c))

is_empty-append : (l m : List String) → is_empty (l ++ m) ≡ (is_empty l && is_empty m)
is_empty-append [] m = refl
is_empty-append (x ∷ l) m = refl

and_nested :
    (a b c d e f : Bool) → (a && b && c && d && e && f) ≡ (a && (b && (c && (d && (e && f)))))
and_nested a b c d e f = ground arith

is_empty_rule-bare :
    (q : Qt) (p : Profiles) (r : RouteRule) → is_empty_rule q p r ≡ (settled r, bare q p r)
unfolding is_empty_rule get_rule_json
is_empty_rule-bare q p r = elim (Bool-cases (is_custom r.rule_type)) [
  | inl c ↦ is_empty_rule-due q p r c
  | inr s ↦ elim (Bool-cases (is_address r.rule_type)) [
    | inl e ↦
        rw
          (
            s,
            e,
            is_empty-append r.domain,
            is_empty-append r.domain_suffix,
            is_empty-append r.domain_keyword,
            is_empty-append r.domain_regex,
            is_empty-append r.rule_set,
          )
          (ap (λ b. (r, b))
            (and_nested (is_empty r.domain) (is_empty r.domain_suffix) (is_empty r.domain_keyword)
              (is_empty r.domain_regex) (is_empty r.rule_set) (is_empty r.ip_cidr)))
    | inr e ↦ rw (s, e, is_empty-append r.process_name) refl
  ]
]

put_kept :
    (b : Bool) (r : RouteRule) (l : List RouteRule)
    → (if not b then settled r ∷ map settled l else map settled l)
      ≡ map settled (if not b then r ∷ l else l)
put_kept true r l = refl
put_kept false r l = refl

pub filter_empty_rules-kept :
    (q : Qt) (p : Profiles) (rs : List RouteRule)
    → filter_empty_rules q p rs ≡ map settled (keep (λ r. not (bare q p r)) rs)
unfolding filter_empty_rules
filter_empty_rules-kept q p [] = refl
filter_empty_rules-kept q p (r ∷ rs) =
    let rest = filter_empty_rules q p rs in
    ap (λ (o : RouteRule × Bool). if not o.1 then o.0 ∷ rest else rest) (is_empty_rule-bare q p r)
    ∙ (ap (λ l. if not (bare q p r) then settled r ∷ l else l) (filter_empty_rules-kept q p rs)
        ∙ put_kept (bare q p r) r (keep (λ s. not (bare q p s)) rs))
