-- ===== src/Repos/Groups/Represents.antt =====
-- What a repository of groups stands for, and that adding and reading keep it (src/database/GroupsRepo.cpp).
use free_link_app.Common.{
  ℕ, ◌+◌, ℤ, pos, ℤ_eq, is_negative, ◌≡◌, refl, sym, ap, ◌∙◌, Option, none, some, List, [], ◌∷◌,
  ◌++◌, ◌==◌, if◌then◌else◌, length, lookup, arith, Option-cases, Bool-cases, inl, inr,
}
use free_link_app.Groups.{get_elem?}
use free_link_app.Repos.Groups.{
  Group, GroupsRepo, IntLists, save_to_database, added, add_group, get_group,
}
use free_link_app.Repos.Groups.Shelf.{
  IsValid, view, Shelf, adds, gets, Answer, got, specified, called, read, get-append, get-last,
}
use free_link_app.Repos.Groups.Fetching.{view_hit, view_row, Fetched, get_group-Fetched}
use free_link_app.Repos.Groups.Placing.{IsOwn, view-placed, placed-IsValid}

get-length : {A : Type 0} (xs : List A) → get_elem? xs (length xs) ≡ none
get-length [] = refl
get-length (x ∷ xs) = get-length xs

module _ (k : IntLists) where
  -- The repository is sound and shows the groups of the specification.
  pub record Represents (r : GroupsRepo) (s : Shelf) : Type 0 where
    pub valid : IsValid k r
    pub shown : (j : ℤ) → view k r j ≡ s.groups j
    pub last : r.last_id ≡ s.last_id

  abbrev pub Steps : GroupsRepo × Answer → Shelf × Answer → Type 0
  Steps (r, a) (s, b) = Represents r s × (a ≡ b)

  -- An object that the program makes is not seen.
  abbrev grown : GroupsRepo → Group → GroupsRepo
  grown r g = record r { heap = r.heap ++ g ∷ [] }

  view-grown :
      (r : GroupsRepo) (g : Group) → IsValid k r → (j : ℤ) → view k (grown r g) j ≡ view k r j
  view-grown r g v j = elim (Option-cases (lookup j r.mem_map)) [
    | inl miss ↦ view_row k (grown r g) j miss ∙ sym (view_row k r j miss)
    | inr (p, hit) ↦
        let (x, at, own, synced) = v.cached j p hit in
        view_hit k (grown r g) j p hit
        ∙ (get-append r.heap g x p at ∙ sym (view_hit k r j p hit ∙ at))
  ]

  grown-IsValid : (r : GroupsRepo) (g : Group) → IsValid k r → IsValid k (grown r g)
  grown-IsValid r g v = record {
    cached = λ j p h.
        let (x, at, own, synced) = v.cached j p h in (x, get-append r.heap g x p at, own, synced);
    stored = v.stored;
    fresh = v.fresh;
    positive = v.positive;
  }

  grown-IsOwn :
      (r : GroupsRepo) (g : Group) (id : ℤ) → IsValid k r → IsOwn k (grown r g) (length r.heap) id
  grown-IsOwn r g id v = record {
    old = g;
    there = get-last r.heap g;
    only = λ j q hit same.
        let (x, at, own, synced) = v.cached j q hit in
        let e : length r.heap ≡ q = ground arith in
        let clash : none ≡ some x = sym (get-length r.heap) ∙ (ap (get_elem? r.heap) e ∙ at) in cc;
  }

  -- A group under the id after a counter.
  abbrev numbered : Group → ℕ → (ℤ → Option Group) → ℤ → Option Group
  numbered g n m j = if pos (n + 1) == j then some (record g { id = pos (n + 1) }) else m j

  added-Represents :
      (g : Group) (r : GroupsRepo) (s : Shelf)
      → Represents r s
      → Represents
          (added k g (length r.heap) (grown r g))
          (record { groups = numbered g s.last_id s.groups; last_id = s.last_id + 1 })
  unfolding save_to_database
  added-Represents g r s h =
      let id = pos (r.last_id + 1) in
      let named = record g { id = id } in
      let own = grown-IsOwn r g id h.valid in
      let order = (added k g (length r.heap) (grown r g)).order in
      let there = view-placed k (grown r g) (length r.heap) id named (r.last_id + 1) order own in
      record {
        valid =
            placed-IsValid k (grown r g) (length r.heap) id named (r.last_id + 1) order
              (grown-IsValid r g h.valid) own refl (omega arith) (λ n lt. ground arith)
              (λ n. ground arith);
        shown = λ j.
            there j
            ∙ (ap (λ o. if id == j then some named else o) (view-grown r g h.valid j ∙ h.shown j)
                ∙ ap (λ (n : ℕ). numbered g n s.groups j) h.last);
        last = omega (arith, h.last);
      }

  pub adds-Steps :
      (g : Group) (r : GroupsRepo) (s : Shelf)
      → Represents r s
      → Steps (called k (adds g) r) (specified (adds g) s)
  unfolding add_group
  adds-Steps g r s h = elim (Bool-cases (is_negative g.id)) [
    | inl new ↦ rw (get-last r.heap g, add_group, new) (added-Represents g r s h, refl)
    | inr old ↦
        rw (get-last r.heap g, add_group, old)
          (
            record {
              valid = grown-IsValid r g h.valid;
              shown = λ j. view-grown r g h.valid j ∙ h.shown j;
              last = h.last;
            },
            refl,
          )
  ]

  pub after_fetching :
      (id : ℤ) (r : GroupsRepo) (s : Shelf) (q : GroupsRepo × Option ℕ)
      → Represents r s
      → Fetched k r id q
      → Represents q.0 s
  after_fetching id r s q h f = record {
    valid = f.valid;
    shown = λ j. f.same j ∙ h.shown j;
    last = f.last ∙ h.last;
  }

  read-Steps :
      (id : ℤ) (r : GroupsRepo) (s : Shelf) (q : GroupsRepo × Option ℕ)
      → Represents r s
      → Fetched k r id q
      → Steps (read k q) (s, got (s.groups id))
  read-Steps id r s (r', none) h f =
      (after_fetching id r s (r', none) h f, ap got (sym (sym (h.shown id) ∙ f.missing refl)))
  read-Steps id r s (r', some p) h f = (
    after_fetching id r s (r', some p) h f,
    ap got (sym (view_hit k r' id p (f.found p refl)) ∙ (f.same id ∙ h.shown id)),
  )

  pub gets-Steps :
      (id : ℤ) (r : GroupsRepo) (s : Shelf)
      → Represents r s
      → Steps (called k (gets id) r) (specified (gets id) s)
  gets-Steps id r s h = read-Steps id r s (get_group k id r) h (get_group-Fetched k r id h.valid)
