-- ===== src/Config/Prerequisites/Presence.antt =====
-- Every needed outbound gets a tag (src/configs/generate.cpp).
use mathlib.Core.Bool.{true≢false}
use text.Mathlib.TextEquality.{eq_iff}
use mathlib.Core.Path.{subst}
use free_link_app.Common.{
  Option_rule, is_empty, ℤ, ℤ_eq, is_negative, String, String_eq, ◌≡◌, refl, sym, ◌∙◌, true, ◌||◌,
  All, false, Option, none, some, List, [], ◌∷◌, ◌==◌, lookup, insert, lookup-insert, beq_refl,
  Bool-cases, inl, inr, if_rule, if_split,
}
use free_link_app.Config.Context.{Hop, World}
use free_link_app.Config.Chain.{numbered}
use free_link_app.Config.Section.{RouteGroup}
use free_link_app.Config.Prerequisites.{
  Needs, is_unroutable, ent_domains, add_domains, need_hops, assign, need_chain, need_ent,
  need_outbound, need_outbounds,
}

unfoldable pub Has : ℤ → List (ℤ × String) → Type 0
Has id map = (tag : String) × (lookup id map ≡ some tag)

Has-insert :
    (id j : ℤ) (tag : String) (map : List (ℤ × String)) → Has j map → Has j (insert id tag map)
unfolding Has
Has-insert id j tag map (old, h) = elim (Bool-cases (id == j)) [
  | inl same ↦ (tag, lookup-insert id j tag map ∙ rw same refl)
  | inr other ↦ (old, lookup-insert id j tag map ∙ rw other h)
]

insert-Has : (id : ℤ) (tag : String) (map : List (ℤ × String)) → Has id (insert id tag map)
unfolding Has
insert-Has id tag map = (tag, lookup-insert id id tag map ∙ rw (beq_refl id) refl)

-- An outbound that is needed gets a tag, and none loses its tag.
record Grows (id : ℤ) (n after : Needs) : Type 0 where
  pub keeps : (j : ℤ) → Has j n.outbound_map → Has j after.outbound_map
  pub has : Has id after.outbound_map

add_domains-map :
    (domains : List String) (n : Needs) → (add_domains domains n).outbound_map ≡ n.outbound_map
add_domains-map domains n =
    if_rule (λ m. m.outbound_map ≡ n.outbound_map) (is_empty domains) n _ refl refl

need_hops-map :
    (w : World) (ids : List ℤ) (n : Needs) → (need_hops w ids n).0.outbound_map ≡ n.outbound_map
unfolding need_hops
need_hops-map w [] n = refl
need_hops-map w (id ∷ ids) n =
    let Same : Needs × String → Type 0 = λ q. q.0.outbound_map ≡ n.outbound_map in
    Option_rule Same (w.get_profile id) _ _ refl (λ ent.
      if_rule Same (is_unroutable ent || ent.type_name == "chain") _ _ refl
        (need_hops-map w ids _ ∙ add_domains-map (ent_domains w ent) n))

assign-Grows :
    (w : World) (id : ℤ) (g : RouteGroup) (n m : Needs)
    → m.outbound_map ≡ n.outbound_map
    → Grows id n (assign w id g m)
assign-Grows w id g n m e = record {
  keeps =
      λ j h. Has-insert id j (numbered w "route" m.suffix) m.outbound_map (subst (Has j) (sym e) h);
  has = insert-Has id (numbered w "route" m.suffix) m.outbound_map;
}

abbrev Growing : ℤ → Needs → Needs × String → Type 0
Growing id n (after, error) = error ≡ "" → Grows id n after

need_chain-Growing :
    (w : World) (id : ℤ) (o : Option (List ℤ)) (n : Needs) → Growing id n (need_chain w id o n)
need_chain-Growing w id none n = λ e. cc
need_chain-Growing w id (some ids) n =
    if_rule (Growing id n) (is_empty ids) _ _ (λ e. cc)
      (if_split (Growing id n) ((need_hops w ids n).1 == "") _ _
        (λ t e. assign-Grows w id _ n (need_hops w ids n).0 (need_hops-map w ids n))
        (λ t e.
          let never : ((need_hops w ids n).1 == "") ≡ true =
            (eq_iff (need_hops w ids n).1 "").1 e in
          absurd (true≢false (sym never ∙ t))))

need_ent-Growing :
    (w : World) (id : ℤ) (o : Option Hop) (n : Needs) → Growing id n (need_ent w id o n)
need_ent-Growing w id none n = λ e. cc
need_ent-Growing w id (some ent) n =
    if_rule (Growing id n) (is_unroutable ent) _ _ (λ e. cc)
      (if_rule (Growing id n) (ent.type_name == "chain") _ _ (need_chain-Growing w id ent.chain n)
        (λ e. assign-Grows w id _ n _ (add_domains-map (ent_domains w ent) n)))

-- What the loop has done for the outbounds it has seen.
abbrev pub AllHave : List ℤ → Needs → Type 0
AllHave ids n = All (λ id. is_negative id ≡ false → Has id n.outbound_map) ids

need_outbound-keeps :
    (w : World) (id : ℤ) (n : Needs)
    → (need_outbound w id n).1 ≡ ""
    → ((j : ℤ) → Has j n.outbound_map → Has j (need_outbound w id n).0.outbound_map)
      × (is_negative id ≡ false → Has id (need_outbound w id n).0.outbound_map)
unfolding need_outbound
need_outbound-keeps w id n e = elim (Bool-cases (is_negative id)) [
  | inl reserved ↦ rw reserved (λ j h. h, λ sign. cc)
  | inr plain ↦
      let grows = need_ent-Growing w id (w.get_profile id) n (rw plain at e) in
      rw plain (grows.keeps, λ sign. grows.has)
]

abbrev pub Grown : List ℤ → Needs → Needs × String → Type 0
Grown ids n (after, error) =
    error ≡ "" → ((j : ℤ) → Has j n.outbound_map → Has j after.outbound_map) × AllHave ids after

pub need_outbounds-Grown :
    (w : World) (ids : List ℤ) (n : Needs) → Grown ids n (need_outbounds w ids n)
unfolding need_outbounds
need_outbounds-Grown w [] n = λ e. (λ j h. h, tt)
need_outbounds-Grown w (id ∷ ids) n =
    let q = need_outbound w id n in
    if_split (Grown (id ∷ ids) n) (q.1 == "") _ _
      (λ t e.
        let (keeps, has) = need_outbound-keeps w id n ((eq_iff q.1 "").0 t) in
        let (later, all) = need_outbounds-Grown w ids q.0 e in
        (λ j h. later j (keeps j h), (λ sign. later id (has sign), all)))
      (λ t e.
        let never : (q.1 == "") ≡ true = (eq_iff q.1 "").1 e in absurd (true≢false (sym never ∙ t)))
