-- ===== src/Repos/Groups/Fetching.antt =====
-- GetGroup changes nothing that the program sees (src/database/GroupsRepo.cpp).
use free_link_app.Common.{
  ℕ, ℤ, pos, negsuc, ℤ_eq, ◌≡◌, refl, sym, ap, ◌∙◌, Option, none, some, [], ◌∷◌, ◌++◌, ◌==◌, length,
  lookup, insert, lookup-insert, Option-cases, Bool-cases, inl, inr,
}
use free_link_app.Groups.{get_elem?}
use free_link_app.Repos.Groups.{
  Group, GroupRow, GroupsRepo, IntLists, group_of, load_from_database, get_group,
}
use free_link_app.Repos.Groups.Shelf.{IsValid, view, of_row, get-append, get-last}

module _ (k : IntLists) where
  pub view_hit :
      (r : GroupsRepo) (j : ℤ) (p : ℕ)
      → lookup j r.mem_map ≡ some p
      → view k r j ≡ get_elem? r.heap p
  view_hit r j p h = rw (h, view) refl

  pub view_row :
      (r : GroupsRepo) (j : ℤ) → lookup j r.mem_map ≡ none → view k r j ≡ of_row k (lookup j r.rows)
  view_row r j h = rw (h, view) refl

  get_hit :
      (r : GroupsRepo) (id : ℤ) (p : ℕ)
      → lookup id r.mem_map ≡ some p
      → get_group k id r ≡ (r, some p)
  unfolding get_group
  get_hit r id p h = rw (h, get_group) refl

  get_miss :
      (r : GroupsRepo) (id : ℤ)
      → lookup id r.mem_map ≡ none
      → lookup id r.rows ≡ none
      → get_group k id r ≡ (r, none)
  unfolding get_group load_from_database
  get_miss r id h m = rw (h, get_group, m, load_from_database) refl

  abbrev loaded : GroupsRepo → ℤ → Group → GroupsRepo
  loaded r id g = record r {
    heap = r.heap ++ g ∷ [];
    mem_map = insert id (length r.heap) r.mem_map;
  }

  get_load :
      (r : GroupsRepo) (id : ℤ) (row : GroupRow)
      → lookup id r.mem_map ≡ none
      → lookup id r.rows ≡ some row
      → get_group k id r ≡ (loaded r id (group_of k row), some (length r.heap))
  unfolding get_group load_from_database
  get_load r id row h m = rw (h, get_group, m, load_from_database) refl

  -- After GetGroup the repository shows the same groups, and the answer is the object of the id.
  pub record Fetched (r : GroupsRepo) (id : ℤ) (q : GroupsRepo × Option ℕ) : Type 0 where
    pub valid : IsValid k q.0
    pub same : (j : ℤ) → view k q.0 j ≡ view k r j
    pub last : q.0.last_id ≡ r.last_id
    pub found : (p : ℕ) → q.1 ≡ some p → lookup id q.0.mem_map ≡ some p
    pub missing : q.1 ≡ none → view k r id ≡ none

  loaded-view :
      (r : GroupsRepo) (id : ℤ) (row : GroupRow)
      → IsValid k r
      → lookup id r.mem_map ≡ none
      → lookup id r.rows ≡ some row
      → (j : ℤ) → view k (loaded r id (group_of k row)) j ≡ view k r j
  loaded-view r id row v h m j = elim (Bool-cases (id == j)) [
    | inl here ↦
        let e = (ℤ_eq.beq_iff id j).0 here in
        let at : lookup j (loaded r id (group_of k row)).mem_map ≡ some (length r.heap) =
          lookup-insert id j (length r.heap) r.mem_map ∙ rw here refl in
        view_hit (loaded r id (group_of k row)) j (length r.heap) at
        ∙ (get-last r.heap (group_of k row)
            ∙ sym (
                view_row r j (ap (λ n. lookup n r.mem_map) (sym e) ∙ h)
                ∙ ap (of_row k) (ap (λ n. lookup n r.rows) (sym e) ∙ m)))
    | inr away ↦
        let at : lookup j (loaded r id (group_of k row)).mem_map ≡ lookup j r.mem_map =
          lookup-insert id j (length r.heap) r.mem_map ∙ rw away refl in
        elim (Option-cases (lookup j r.mem_map)) [
          | inl none' ↦
              view_row (loaded r id (group_of k row)) j (at ∙ none') ∙ sym (view_row r j none')
          | inr (p, hit) ↦
              let (g, there, own, synced) = v.cached j p hit in
              view_hit (loaded r id (group_of k row)) j p (at ∙ hit)
              ∙ (get-append r.heap (group_of k row) g p there ∙ sym (view_hit r j p hit ∙ there))
        ]
  ]

  loaded-IsValid :
      (r : GroupsRepo) (id : ℤ) (row : GroupRow)
      → IsValid k r
      → lookup id r.rows ≡ some row
      → IsValid k (loaded r id (group_of k row))
  unfolding group_of
  loaded-IsValid r id row v m = record {
    stored = v.stored;
    cached = λ j p h. elim (Bool-cases (id == j)) [
      | inl here ↦
          let e = (ℤ_eq.beq_iff id j).0 here in
          let one : some (length r.heap) ≡ some p =
            sym (lookup-insert id j (length r.heap) r.mem_map ∙ rw here refl) ∙ h in
          let q : length r.heap ≡ p = cc in
          (
            group_of k row,
            ap (get_elem? _) (sym q) ∙ get-last r.heap (group_of k row),
            v.stored id row m ∙ e,
            ap (of_row k) (ap (λ n. lookup n r.rows) (sym e) ∙ m),
          )
      | inr away ↦
          let old : lookup j r.mem_map ≡ some p =
            sym (lookup-insert id j (length r.heap) r.mem_map ∙ rw away refl) ∙ h in
          let (g, there, own, synced) = v.cached j p old in
          (g, get-append r.heap (group_of k row) g p there, own, synced)
    ];
    fresh = λ n lt. elim (Bool-cases (id == pos n)) [
      | inl here ↦
          let e = (ℤ_eq.beq_iff id (pos n)).0 here in
          let clash : none ≡ some row =
            sym (v.fresh n lt).1 ∙ (ap (λ i. lookup i r.rows) (sym e) ∙ m) in
          cc
      | inr away ↦ (
        lookup-insert id (pos n) (length r.heap) r.mem_map ∙ rw away (v.fresh n lt).0,
        (v.fresh n lt).1,
      )
    ];
    positive = λ n. elim (Bool-cases (id == negsuc n)) [
      | inl here ↦
          let e = (ℤ_eq.beq_iff id (negsuc n)).0 here in
          let clash : none ≡ some row =
            sym (v.positive n).1 ∙ (ap (λ i. lookup i r.rows) (sym e) ∙ m) in
          cc
      | inr away ↦ (
        lookup-insert id (negsuc n) (length r.heap) r.mem_map ∙ rw away (v.positive n).0,
        (v.positive n).1,
      )
    ];
  }

  pub get_group-Fetched : (r : GroupsRepo) (id : ℤ) → IsValid k r → Fetched r id (get_group k id r)
  get_group-Fetched r id v = elim (Option-cases (lookup id r.mem_map)) [
    | inr (p, hit) ↦ rw (get_hit r id p hit) (record {
      valid = v;
      same = λ j. refl;
      last = refl;
      found = λ q e. hit ∙ e;
      missing = λ e. cc;
    })
    | inl miss ↦ elim (Option-cases (lookup id r.rows)) [
      | inl gone ↦ rw (get_miss r id miss gone) (record {
        valid = v;
        same = λ j. refl;
        last = refl;
        found = λ q e. cc;
        missing = λ e. view_row r id miss ∙ ap (of_row k) gone;
      })
      | inr (row, there) ↦ rw (get_load r id row miss there) (record {
        valid = loaded-IsValid r id row v there;
        same = loaded-view r id row v miss there;
        last = refl;
        found = λ q e.
            lookup-insert id id (length r.heap) r.mem_map
            ∙ (rw ((ℤ_eq.beq_iff id id).1 refl) refl ∙ e);
        missing = λ e. cc;
      })
    ]
  ]
