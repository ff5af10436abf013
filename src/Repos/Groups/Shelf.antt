-- ===== src/Repos/Groups/Shelf.antt =====
-- The groups as the program sees them, behind the map in memory and the table
-- (src/database/GroupsRepo.cpp).
use free_link_app.Common.{
  ℕ, zero, suc, ◌+◌, ◌<◌, ℤ, pos, negsuc, ℤ_eq, is_negative, ◌≡◌, refl, Bool, true, false, Option,
  none, some, List, [], ◌∷◌, ◌++◌, ◌==◌, if◌then◌else◌, length, lookup, arith, nat_eq,
}
use free_link_app.Groups.{get_elem?, set_at}
use free_link_app.Repos.Groups.{
  Group, GroupRow, GroupsRepo, IntLists, group_of, add_group, get_group, save, delete_group,
}

module _ {A : Type 0} where
  pub get-append :
      (xs : List A) (a x : A) (n : ℕ)
      → get_elem? xs n ≡ some x
      → get_elem? (xs ++ a ∷ []) n ≡ some x
  get-append [] a x n h = cc
  get-append (y ∷ ys) a x zero h = h
  get-append (y ∷ ys) a x (suc n) h = get-append ys a x n h

  pub get-last : (xs : List A) (a : A) → get_elem? (xs ++ a ∷ []) (length xs) ≡ some a
  get-last [] a = refl
  get-last (y ∷ ys) a = get-last ys a

  pub get-set_self :
      (xs : List A) (a x : A) (n : ℕ)
      → get_elem? xs n ≡ some x
      → get_elem? (set_at n a xs) n ≡ some a
  get-set_self [] a x n h = cc
  get-set_self (y ∷ ys) a x zero h = refl
  get-set_self (y ∷ ys) a x (suc n) h = get-set_self ys a x n h

  pub get-set_other :
      (xs : List A) (a : A) (m n : ℕ)
      → nat_eq m n ≡ false
      → get_elem? (set_at m a xs) n ≡ get_elem? xs n
  get-set_other [] a m n h = refl
  get-set_other (y ∷ ys) a zero zero h = cc
  get-set_other (y ∷ ys) a zero (suc n) h = refl
  get-set_other (y ∷ ys) a (suc m) zero h = refl
  get-set_other (y ∷ ys) a (suc m) (suc n) h = get-set_other ys a m n (ground arith)

module _ (k : IntLists) where
  abbrev pub of_row : Option GroupRow → Option Group
  of_row none = none
  of_row (some row) = some (group_of k row)

  -- The objects and rows of one id belong to it, an object is as its row says, and ids above the
  -- counter are free, as the negative ones are.
  pub record IsValid (r : GroupsRepo) : Type 0 where
    pub cached :
        (id : ℤ) (p : ℕ)
        → lookup id r.mem_map ≡ some p
        → (g : Group) × (get_elem? r.heap p ≡ some g)
          × (g.id ≡ id)
          × (of_row (lookup id r.rows) ≡ some g)
    pub stored : (id : ℤ) (row : GroupRow) → lookup id r.rows ≡ some row → row.id ≡ id
    pub fresh :
        (n : ℕ) → r.last_id < n → (lookup (pos n) r.mem_map ≡ none) × (lookup (pos n) r.rows ≡ none)
    pub positive :
        (n : ℕ) → (lookup (negsuc n) r.mem_map ≡ none) × (lookup (negsuc n) r.rows ≡ none)

  abbrev pub at_pointer : List Group → Option ℕ → Option GroupRow → Option Group
  at_pointer heap none row = of_row row
  at_pointer heap (some p) row = get_elem? heap p

  -- The group of an id: the object in memory, or else what the row says.
  abbrev pub view : GroupsRepo → ℤ → Option Group
  view r id = at_pointer r.heap (lookup id r.mem_map) (lookup id r.rows)

-- The specification: groups by id, and the last id given.
pub record Shelf : Type 0 where
  pub groups : ℤ → Option Group
  pub last_id : ℕ

abbrev put : ℤ → Group → (ℤ → Option Group) → ℤ → Option Group
put id g m j = if id == j then some g else m j

abbrev pub remove : ℤ → (ℤ → Option Group) → ℤ → Option Group
remove id m j = if id == j then none else m j

-- What the program does with the repository: a new group is added, one is read, one is read, edited
-- and saved, one is deleted, and the program is closed and started again. An edit leaves the id
-- alone.
pub data GroupCall : Type 0 where
  adds : Group → GroupCall
  gets : ℤ → GroupCall
  updates : ℤ → (Group → Group) → GroupCall
  deletes : ℤ → GroupCall
  restarts : GroupCall

pub data Answer : Type 0 where
  told : Bool → Answer
  got : Option Group → Answer

abbrev pub edited_group : (Group → Group) → Group → Group
edited_group f g = record (f g) { id = g.id }

abbrev pub specified : GroupCall → Shelf → Shelf × Answer
specified (adds g) s =
    let id = pos (s.last_id + 1) in
    if is_negative g.id
    then (
      record { groups = put id (record g { id = id }) s.groups; last_id = s.last_id + 1 },
      told true,
    )
    else (s, told false)
specified (gets id) s = (s, got (s.groups id))
specified (updates id f) s = elim (s.groups id) [
  | none ↦ (s, told false)
  | some g ↦ (record s { groups = put id (edited_group f g) s.groups }, told true)
]
specified (deletes id) s = (record s { groups = remove id s.groups }, told true)
specified restarts s = (s, told true)

unfoldable pub specified_answers : List GroupCall → Shelf → List Answer
specified_answers [] s = []
specified_answers (c ∷ cs) s = (specified c s).1 ∷ specified_answers cs (specified c s).0

module _ (k : IntLists) where
  abbrev pub written : (Group → Group) → Option ℕ → GroupsRepo → GroupsRepo × Bool
  written f none r = (r, false)
  written f (some p) r = elim (get_elem? r.heap p) [
    | none ↦ (r, false)
    | some g ↦ save k p (record r { heap = set_at p (edited_group f g) r.heap })
  ]

  abbrev pub read : GroupsRepo × Option ℕ → GroupsRepo × Answer
  read (r, none) = (r, got none)
  read (r, some p) = (r, got (get_elem? r.heap p))

  -- The same calls of the repository.
  abbrev pub called : GroupCall → GroupsRepo → GroupsRepo × Answer
  called (adds g) r =
      let (r', done) = add_group k (length r.heap) (record r { heap = r.heap ++ g ∷ [] }) in
      (r', told done)
  called (gets id) r = read (get_group k id r)
  called (updates id f) r =
      let (r', p) = get_group k id r in let (r'', done) = written f p r' in (r'', told done)
  called (deletes id) r = (delete_group id r, told true)
  called restarts r = (record r { heap = []; mem_map = [] }, told true)
