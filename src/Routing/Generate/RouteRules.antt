-- ===== src/Routing/Generate/RouteRules.antt =====
-- The routing section of the generated configuration (src/database/entities/RouteProfile.cpp).
use free_link_app.Common.{
  ◌≡◌, refl, sym, ap, ◌∙◌, ℤ, String, String_eq, ℤ_eq, Bool, true, false, Option, none, some, List,
  [], ◌∷◌, ◌==◌, if◌then◌else◌, Bool-cases, inl, inr,
}
use free_link_app.Qt.{Qt}
use free_link_app.Json.{Fields, is_empty_object, text_at}
use free_link_app.Routing.Rule.{RouteRule}
use free_link_app.Routing.Profiles.{Profiles}
use free_link_app.Routing.Generate.{
  adblock_rule, Generated, map_json, skips, rule_json, put_rule, route_rules_from, get_route_rules,
}

-- The adblock rule before the first rule that routes, or at the end.
abbrev pub insert_adblock : List Fields → List Fields
insert_adblock [] = adblock_rule ∷ []
insert_adblock (j ∷ js) =
    if text_at "action" j == "route" then adblock_rule ∷ j ∷ js else j ∷ insert_adblock js

map_json-comp :
    (f g h : List Fields → List Fields) (o : Option (List Fields))
    → ((js : List Fields) → f (g js) ≡ h js)
    → map_json f (map_json g o) ≡ map_json h o
map_json-comp f g h none e = refl
map_json-comp f g h (some js) e = ap some (e js)

if_same : (c b : Bool) → (if c then b else b) ≡ b
if_same true b = refl
if_same false b = refl

-- Two sections of the same rules, the first with the adblock rule put in.
abbrev Inserted : Generated → Generated → Type 0
Inserted x y = (x.0 ≡ y.0) × (x.1 ≡ map_json insert_adblock y.1)

put_rule-Inserted :
    (r s : RouteRule) (json : Fields) (skip : Bool) (rs : List RouteRule) (x y : Generated)
    → text_at "action" json == "route" ≡ false
    → Inserted x y
    → Inserted (put_rule r s json skip false rs x) (put_rule r s json skip false rs y)
unfolding put_rule
put_rule-Inserted r s json true rs x y h (e, k) = (ap (λ l. r ∷ l) e, k)
put_rule-Inserted r s json false rs x y h (e, k) = elim (Bool-cases (is_empty_object json)) [
  | inl b ↦ rw b (refl, refl)
  | inr b ↦ rw b (
    ap (λ l. s ∷ l) e,
    ap (map_json (λ js. json ∷ js)) k
        ∙ (map_json-comp (λ js. json ∷ js) insert_adblock (λ js. json ∷ insert_adblock js) y.1
              (λ js. refl)
            ∙ sym (
                map_json-comp insert_adblock (λ js. json ∷ js) (λ js. json ∷ insert_adblock js) y.1
                  (λ js. rw h refl))),
  )
]

put_rule-routing :
    (r s : RouteRule) (json : Fields) (rs : List RouteRule) (x y : Generated)
    → text_at "action" json == "route" ≡ true
    → x ≡ y
    → Inserted (put_rule r s json false true rs x) (put_rule r s json false false rs y)
unfolding put_rule
put_rule-routing r s json rs x y h e = elim (Bool-cases (is_empty_object json)) [
  | inl b ↦ rw b (refl, refl)
  | inr b ↦ rw b (
    ap (λ (g : Generated). s ∷ g.0) e,
    ap (λ (g : Generated). map_json (λ js. adblock_rule ∷ json ∷ js) g.1) e
        ∙ sym (
            map_json-comp insert_adblock (λ js. json ∷ js) (λ js. adblock_rule ∷ json ∷ js) y.1
              (λ js. rw h refl)),
  )
]

-- One round, with the rest of the loop as a function of what is remembered.
round-Inserted :
    (r s : RouteRule) (json : Fields) (rs : List RouteRule) (f g : Bool → Generated)
    (skip act : Bool)
    → (text_at "action" json == "route") ≡ act
    → Inserted (f false) (g false)
    → f true ≡ g false
    → Inserted
        (put_rule r s json skip act rs (f (if skip then false else act)))
        (put_rule r s json skip false rs (g (if skip then false else false)))
unfolding put_rule
round-Inserted r s json rs f g true act h i e = (ap (λ l. r ∷ l) i.0, i.1)
round-Inserted r s json rs f g false true h i e =
    put_rule-routing r s json rs (f true) (g false) h e
round-Inserted r s json rs f g false false h i e =
    put_rule-Inserted r s json false rs (f false) (g false) h i

module _ (q : Qt) (p : Profiles) (for_view : Bool) (tags : ℤ → Option String) where
  abbrev from : Bool → List RouteRule → Bool → Generated
  from = route_rules_from q p for_view tags

  -- Once the rule is in, the setting plays no part.
  added_once : (rs : List RouteRule) (b : Bool) → from true rs true ≡ from false rs b
  unfolding route_rules_from
  added_once [] true = refl
  added_once [] false = refl
  added_once (r ∷ rs) true =
      let (s, json) = rule_json q p for_view tags r in
      ap (put_rule r s json (skips q p r) false rs)
        (ap (from true rs) (if_same (skips q p r) true) ∙ added_once rs _)
  added_once (r ∷ rs) false =
      let (s, json) = rule_json q p for_view tags r in
      ap (put_rule r s json (skips q p r) false rs)
        (ap (from true rs) (if_same (skips q p r) true) ∙ added_once rs _)

  route_rules-Inserted : (rs : List RouteRule) → Inserted (from true rs false) (from false rs false)
  unfolding route_rules_from
  route_rules-Inserted [] = (refl, refl)
  route_rules-Inserted (r ∷ rs) =
      let (s, json) = rule_json q p for_view tags r in
      round-Inserted r s json rs (from true rs) (from false rs) (skips q p r) _ refl
        (route_rules-Inserted rs) (added_once rs false)

-- With the adblock setting on, the section is the one without it, and the adblock rule stands before
-- its first rule that routes, or last where none does; a section that is aborted without it stays
-- aborted. The profile's rules are left the same.
pub get_route_rules-adblock :
    (q : Qt) (p : Profiles) (for_view : Bool) (tags : ℤ → Option String) (rules : List RouteRule)
    → ((route_rules_from q p for_view tags true rules false).1
        ≡ map_json insert_adblock (route_rules_from q p for_view tags false rules false).1)
      × ((get_route_rules q p for_view tags true rules).0
          ≡ (get_route_rules q p for_view tags false rules).0)
unfolding get_route_rules
get_route_rules-adblock q p for_view tags rules =
    let (e, k) = route_rules-Inserted q p for_view tags rules in (k, e)
