-- ===== src/Repos/Groups/Removing.antt =====
-- Deleting a group and starting again, by what a repository of groups stands for (src/database/GroupsRepo.cpp).
use free_link_app.Common.{
  ℕ, ◌<◌, ℤ, pos, negsuc, ℤ_eq, is_negative, ◌≡◌, refl, sym, ap, ◌∙◌, Bool, true, false, Option,
  none, some, List, [], ◌==◌, if◌then◌else◌, lookup, erase, lookup-erase, Option-cases, Bool-cases,
  inl, inr,
}
use free_link_app.Repos.Groups.{GroupsRepo, IntLists, delete_group}
use free_link_app.Repos.Groups.Shelf.{
  IsValid, view, of_row, Shelf, deletes, restarts, specified, called,
}
use free_link_app.Repos.Groups.Fetching.{view_hit, view_row}
use free_link_app.Repos.Groups.Represents.{Represents, Steps}

if_none : {A : Type 0} (b : Bool) (o : Option A) → o ≡ none → (if b then none else o) ≡ none
if_none true o h = refl
if_none false o h = h

module _ (k : IntLists) where
  view-delete_group :
      (id : ℤ) (r : GroupsRepo) (j : ℤ)
      → view k (delete_group id r) j ≡ (if id == j then none else view k r j)
  unfolding delete_group
  view-delete_group id r j = elim (Bool-cases (id == j)) [
    | inl here ↦
        view_row k (delete_group id r) j (lookup-erase id j r.mem_map ∙ rw here refl)
        ∙ (ap (of_row k) (lookup-erase id j r.rows) ∙ rw here refl)
    | inr away ↦
        let at = lookup-erase id j r.mem_map ∙ rw away refl in
        elim (Option-cases (lookup j r.mem_map)) [
          | inl miss ↦
              view_row k (delete_group id r) j (at ∙ miss)
              ∙ (ap (of_row k) (lookup-erase id j r.rows) ∙ (rw away (sym (view_row k r j miss))))
          | inr (p, hit) ↦
              view_hit k (delete_group id r) j p (at ∙ hit)
              ∙ (sym (view_hit k r j p hit) ∙ rw away refl)
        ]
  ]

  erased :
      {V : Type 0} (id j : ℤ) (m : List (ℤ × V)) (v : V)
      → lookup j (erase id m) ≡ some v
      → lookup j m ≡ some v
  erased id j m v h = elim (Bool-cases (id == j)) [
    | inl here ↦ let clash : none ≡ some v = sym (lookup-erase id j m ∙ rw here refl) ∙ h in cc
    | inr away ↦ sym (lookup-erase id j m ∙ rw away refl) ∙ h
  ]

  gone :
      {V : Type 0} (id j : ℤ) (m : List (ℤ × V)) → lookup j m ≡ none → lookup j (erase id m) ≡ none
  gone id j m h = lookup-erase id j m ∙ if_none (id == j) (lookup j m) h

  -- Where the object of an id is left, so is its row.
  kept_row :
      (id j : ℤ) (r : GroupsRepo) (p : ℕ)
      → lookup j (erase id r.mem_map) ≡ some p
      → lookup j (erase id r.rows) ≡ lookup j r.rows
  kept_row id j r p h = elim (Bool-cases (id == j)) [
    | inl here ↦
        let clash : none ≡ some p = sym (lookup-erase id j r.mem_map ∙ rw here refl) ∙ h in cc
    | inr away ↦ lookup-erase id j r.rows ∙ rw away refl
  ]

  delete_group-IsValid : (id : ℤ) (r : GroupsRepo) → IsValid k r → IsValid k (delete_group id r)
  unfolding delete_group
  delete_group-IsValid id r v = record {
    cached = λ j p h.
        let (x, at, own, synced) = v.cached j p (erased id j r.mem_map p h) in
        (x, at, own, ap (of_row k) (kept_row id j r p h) ∙ synced);
    stored = λ j row h. v.stored j row (erased id j r.rows row h);
    fresh = λ n lt.
        (gone id (pos n) r.mem_map (v.fresh n lt).0, gone id (pos n) r.rows (v.fresh n lt).1);
    positive = λ n.
        (gone id (negsuc n) r.mem_map (v.positive n).0, gone id (negsuc n) r.rows (v.positive n).1);
  }

  pub deletes-Steps :
      (id : ℤ) (r : GroupsRepo) (s : Shelf)
      → Represents k r s
      → Steps k (called k (deletes id) r) (specified (deletes id) s)
  unfolding delete_group
  deletes-Steps id r s h = (
    record {
      valid = delete_group-IsValid id r h.valid;
      shown = λ j. view-delete_group id r j ∙ ap (λ o. if id == j then none else o) (h.shown j);
      last = h.last;
    },
    refl,
  )

  -- An id that is in use is not negative and not above the counter.
  pub used_sign :
      (id : ℤ) (r : GroupsRepo) (p : ℕ)
      → IsValid k r
      → lookup id r.mem_map ≡ some p
      → (is_negative id ≡ false)
        × ((n : ℕ) → r.last_id < n → (id == pos n) ≡ false)
        × ((n : ℕ) → (id == negsuc n) ≡ false)
  used_sign (negsuc m) r p v h = let clash : none ≡ some p = sym (v.positive m).0 ∙ h in cc
  used_sign (pos m) r p v h = (
    refl,
    λ n lt. elim (Bool-cases (pos m == pos n)) [
      | inl here ↦
          let e = (ℤ_eq.beq_iff (pos m) (pos n)).0 here in
          let clash : none ≡ some p =
            sym (v.fresh n lt).0 ∙ (ap (λ i. lookup i r.mem_map) (sym e) ∙ h) in
          cc
      | inr away ↦ away
    ],
    λ n. refl,
  )

  restarted-shown :
      (r : GroupsRepo) (j : ℤ)
      → IsValid k r
      → view k (record r { heap = []; mem_map = [] }) j ≡ view k r j
  restarted-shown r j v = elim (Option-cases (lookup j r.mem_map)) [
    | inl miss ↦ sym (view_row k r j miss)
    | inr (p, hit) ↦
        let (x, at, own, synced) = v.cached j p hit in synced ∙ sym (view_hit k r j p hit ∙ at)
  ]

  -- What is in the table is all there is to know.
  pub restarts-Steps :
      (r : GroupsRepo) (s : Shelf)
      → Represents k r s
      → Steps k (called k restarts r) (specified restarts s)
  restarts-Steps r s h = (
    record {
      valid = record {
        cached = λ j p e. cc;
        stored = h.valid.stored;
        fresh = λ n lt. (refl, (h.valid.fresh n lt).1);
        positive = λ n. (refl, (h.valid.positive n).1);
      };
      shown = λ j. restarted-shown r j h.valid ∙ h.shown j;
      last = h.last;
    },
    refl,
  )
