-- ===== src/Repos/Groups/Placing.antt =====
-- An object is written: in memory, under its id, and into the table (src/database/GroupsRepo.cpp).
use free_link_app.Common.{
  ℕ, ◌<◌, ◌≤◌, ℤ, pos, negsuc, ℤ_eq, ◌≡◌, refl, sym, ap, ◌∙◌, true, false, some, List, ◌==◌,
  if◌then◌else◌, lookup, insert, lookup-insert, arith, nat_eq, Option-cases, Bool-cases, inl, inr,
}
use free_link_app.Groups.{get_elem?, set_at}
use free_link_app.Repos.Groups.{Group, GroupRow, GroupsRepo, IntLists, row_of}
use free_link_app.Repos.Groups.Rows.{group_of-row_of}
use free_link_app.Repos.Groups.Shelf.{IsValid, view, of_row, get-set_self, get-set_other}
use free_link_app.Repos.Groups.Fetching.{view_hit, view_row}

module _ (k : IntLists) where
  abbrev pub placed : GroupsRepo → ℕ → ℤ → Group → ℕ → List (ℤ × ℤ) → GroupsRepo
  placed r p id g last order = record {
    heap = set_at p g r.heap;
    mem_map = insert id p r.mem_map;
    rows = insert id (row_of k g id) r.rows;
    order = order;
    last_id = last;
  }

  -- An object that is there and belongs to no other id.
  pub record IsOwn (r : GroupsRepo) (p : ℕ) (id : ℤ) : Type 0 where
    pub old : Group
    pub there : get_elem? r.heap p ≡ some old
    pub only : (j : ℤ) (q : ℕ) → lookup j r.mem_map ≡ some q → nat_eq p q ≡ true → id ≡ j

  module _ (r : GroupsRepo) (p : ℕ) (id : ℤ) (g : Group) (last : ℕ) (order : List (ℤ × ℤ)) where
    abbrev after : GroupsRepo
    after = placed r p id g last order

    mem-here : (j : ℤ) → (id == j) ≡ true → lookup j after.mem_map ≡ some p
    mem-here j here = lookup-insert id j p r.mem_map ∙ rw here refl

    mem-away : (j : ℤ) → (id == j) ≡ false → lookup j after.mem_map ≡ lookup j r.mem_map
    mem-away j away = lookup-insert id j p r.mem_map ∙ rw away refl

    row-here : (j : ℤ) → (id == j) ≡ true → lookup j after.rows ≡ some (row_of k g id)
    row-here j here = lookup-insert id j (row_of k g id) r.rows ∙ rw here refl

    row-away : (j : ℤ) → (id == j) ≡ false → lookup j after.rows ≡ lookup j r.rows
    row-away j away = lookup-insert id j (row_of k g id) r.rows ∙ rw away refl

    -- Another object is the one that it was.
    elsewhere :
        IsOwn r p id
        → (j : ℤ) (q : ℕ) → (id == j) ≡ false
        → lookup j r.mem_map ≡ some q
        → get_elem? after.heap q ≡ get_elem? r.heap q
    elsewhere o j q away hit = elim (Bool-cases (nat_eq p q)) [
      | inl same ↦ let clash = (ℤ_eq.beq_iff id j).1 (o.only j q hit same) in cc
      | inr other ↦ get-set_other r.heap g p q other
    ]

    pub view-placed :
        IsOwn r p id → (j : ℤ) → view k after j ≡ (if id == j then some g else view k r j)
    view-placed o j = elim (Bool-cases (id == j)) [
      | inl here ↦
          view_hit k after j p (mem-here j here)
          ∙ (get-set_self r.heap g o.old p o.there ∙ rw here refl)
      | inr away ↦ elim (Option-cases (lookup j r.mem_map)) [
        | inl miss ↦
            view_row k after j (mem-away j away ∙ miss)
            ∙ (ap (of_row k) (row-away j away) ∙ (sym (view_row k r j miss) ∙ rw away refl))
        | inr (q, hit) ↦
            view_hit k after j q (mem-away j away ∙ hit)
            ∙ (elsewhere o j q away hit ∙ (sym (view_hit k r j q hit) ∙ rw away refl))
      ]
    ]

    pub placed-IsValid :
        IsValid k r
        → IsOwn r p id
        → g.id ≡ id
        → r.last_id ≤ last
        → ((n : ℕ) → last < n → (id == pos n) ≡ false)
        → ((n : ℕ) → (id == negsuc n) ≡ false)
        → IsValid k after
    unfolding row_of
    placed-IsValid v o own up above below = record {
      cached = λ j q h. elim (Bool-cases (id == j)) [
        | inl here ↦
            let one : some p ≡ some q = sym (mem-here j here) ∙ h in
            let e : p ≡ q = cc in
            (
              g,
              ap (get_elem? after.heap) (sym e) ∙ get-set_self r.heap g o.old p o.there,
              own ∙ (ℤ_eq.beq_iff id j).0 here,
              ap (of_row k) (row-here j here)
                  ∙ (ap some (group_of-row_of k g id)
                      ∙ ap (λ i. some (record g { id = i })) (sym own)),
            )
        | inr away ↦
            let hit = sym (mem-away j away) ∙ h in
            let (x, at, its, synced) = v.cached j q hit in
            (x, elsewhere o j q away hit ∙ at, its, ap (of_row k) (row-away j away) ∙ synced)
      ];
      stored = λ j row h. elim (Bool-cases (id == j)) [
        | inl here ↦
            let one : some (row_of k g id) ≡ some row = sym (row-here j here) ∙ h in
            let e : row_of k g id ≡ row = cc in
            ap (λ (x : GroupRow). x.id) (sym e) ∙ (ℤ_eq.beq_iff id j).0 here
        | inr away ↦ v.stored j row (sym (row-away j away) ∙ h)
      ];
      fresh = λ n lt.
          let old = v.fresh n (omega arith) in
          (mem-away (pos n) (above n lt) ∙ old.0, row-away (pos n) (above n lt) ∙ old.1);
      positive = λ n. (
        mem-away (negsuc n) (below n) ∙ (v.positive n).0,
        row-away (negsuc n) (below n) ∙ (v.positive n).1,
      );
    }
