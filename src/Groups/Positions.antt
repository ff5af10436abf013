-- ===== src/Groups/Positions.antt =====
-- Where profiles stand after a move (src/database/entities/Group.cpp).
use free_link_app.Common.{
  ◌≡◌, refl, ap, ◌∙◌, ◌<◌, ◌≤◌, ℕ, zero, suc, ◌+◌, ℤ, pos, ℤ_eq, Bool, true, false, not, ◌||◌, some,
  List, [], ◌∷◌, ◌==◌, if◌then◌else◌, leb, ltb, length, arith, Bool-cases, inl, inr, keep, beq_refl,
  if_split, ltb→lt,
}
use free_link_app.Groups.{get_elem?, insert_at, remove_at, set_at, moved_to, emplace_profile}

-- How often a profile stands in a list.
abbrev pub times : ℤ → List ℤ → ℕ
times x [] = 0
times x (y ∷ ys) = (if y == x then 1 else 0) + times x ys

module _ (x : ℤ) where
  times-insert_at : (n : ℕ) (a : ℤ) (l : List ℤ) → times x (insert_at n a l) ≡ times x (a ∷ l)
  times-insert_at zero a l = refl
  times-insert_at (suc n) a [] = refl
  times-insert_at (suc n) a (y ∷ ys) = omega (arith, times-insert_at n a ys)

  times-remove_at :
      (n : ℕ) (a : ℤ) (l : List ℤ)
      → get_elem? l n ≡ some a
      → times x (a ∷ remove_at n l) ≡ times x l
  times-remove_at n a [] h = cc
  times-remove_at zero a (y ∷ ys) h = ground (arith, h)
  times-remove_at (suc n) a (y ∷ ys) h = omega (arith, times-remove_at n a ys h)

  pub times-set_at :
      (n : ℕ) (a b : ℤ) (l : List ℤ)
      → get_elem? l n ≡ some a
      → times x (a ∷ set_at n b l) ≡ times x (b ∷ l)
  times-set_at n a b [] h = cc
  times-set_at zero a b (y ∷ ys) h = ground (arith, h)
  times-set_at (suc n) a b (y ∷ ys) h = omega (arith, times-set_at n a b ys h)

get-insert_before :
    (i j : ℕ) (a : ℤ) (l : List ℤ)
    → i < j
    → i < length l
    → get_elem? (insert_at j a l) i ≡ get_elem? l i
get-insert_before i zero a l h k = ground arith
get-insert_before i (suc j) a [] h k = ground arith
get-insert_before zero (suc j) a (y ∷ ys) h k = refl
get-insert_before (suc i) (suc j) a (y ∷ ys) h k =
    get-insert_before i j a ys (omega arith) (omega arith)

get-insert_behind :
    (i j : ℕ) (a : ℤ) (l : List ℤ) → j ≤ i → get_elem? (insert_at j a l) (suc i) ≡ get_elem? l i
get-insert_behind i zero a l h = refl
get-insert_behind i (suc j) a [] h = refl
get-insert_behind zero (suc j) a (y ∷ ys) h = ground arith
get-insert_behind (suc i) (suc j) a (y ∷ ys) h = get-insert_behind i j a ys (omega arith)

get-insert_at : (j : ℕ) (a : ℤ) (l : List ℤ) → j ≤ length l → get_elem? (insert_at j a l) j ≡ some a
get-insert_at zero a l h = refl
get-insert_at (suc j) a [] h = ground arith
get-insert_at (suc j) a (y ∷ ys) h = get-insert_at j a ys (omega arith)

get-remove_before :
    (i j : ℕ) (l : List ℤ) → i ≤ j → get_elem? (remove_at i l) j ≡ get_elem? l (suc j)
get-remove_before i j [] h = refl
get-remove_before zero j (y ∷ ys) h = refl
get-remove_before (suc i) zero (y ∷ ys) h = ground arith
get-remove_before (suc i) (suc j) (y ∷ ys) h = get-remove_before i j ys (omega arith)

get-remove_behind : (i j : ℕ) (l : List ℤ) → j < i → get_elem? (remove_at i l) j ≡ get_elem? l j
get-remove_behind i j [] h = refl
get-remove_behind zero j (y ∷ ys) h = ground arith
get-remove_behind (suc i) zero (y ∷ ys) h = refl
get-remove_behind (suc i) (suc j) (y ∷ ys) h = get-remove_behind i j ys (omega arith)

module _ (p : ℤ → Bool) (a : ℤ) (h : p a ≡ false) where
  keep-insert_at : (n : ℕ) (l : List ℤ) → keep p (insert_at n a l) ≡ keep p l
  keep-insert_at zero l = rw h refl
  keep-insert_at (suc n) [] = rw h refl
  keep-insert_at (suc n) (y ∷ ys) = rw (keep-insert_at n ys) refl

  keep-remove_at : (n : ℕ) (l : List ℤ) → get_elem? l n ≡ some a → keep p (remove_at n l) ≡ keep p l
  keep-remove_at n [] k = cc
  keep-remove_at zero (y ∷ ys) k = let same : y ≡ a = cc in rw (same, h) refl
  keep-remove_at (suc n) (y ∷ ys) k = rw (keep-remove_at n ys k) refl

-- Where a profile lands that is moved from `i` to behind `j`.
abbrev pub landing : ℕ → ℕ → ℕ
landing i j = if ltb j i then suc j else j

abbrev pub not_it : ℤ → ℤ → Bool
not_it id x = not (x == id)

-- A list after the move of `id` from `i`: it stands at its place, the others stand in their order, and
-- none came or went.
pub record Moved (i j : ℕ) (id : ℤ) (profiles l : List ℤ) : Type 0 where
  pub place : get_elem? l (landing i j) ≡ some id
  pub order : keep (not_it id) l ≡ keep (not_it id) profiles
  pub members : (x : ℤ) → times x l ≡ times x profiles

module _ (i j : ℕ) (id : ℤ) (l : List ℤ) (h : get_elem? l i ≡ some id) (a : i < length l)
    (b : j < length l) where
  abbrev inserted : List ℤ
  inserted = insert_at (suc j) id l

  self : not_it id id ≡ false
  self = rw (beq_refl id) refl

  -- The profile is removed from where it stood, at `n` by now.
  removed :
      (n : ℕ)
      → get_elem? inserted n ≡ some id
      → get_elem? (remove_at n inserted) (landing i j) ≡ some id
      → Moved i j id l (remove_at n inserted)
  removed n k e = record {
    place = e;
    order =
        keep-remove_at (not_it id) id self n inserted k
        ∙ keep-insert_at (not_it id) id self (suc j) l;
    members = λ x. omega (arith, times-remove_at x n id inserted k, times-insert_at x (suc j) id l);
  }

  Moved-up : j < i → Moved i j id l (remove_at (suc i) inserted)
  Moved-up k = removed (suc i) (get-insert_behind i (suc j) id l k ∙ h) (
      ap (get_elem? (remove_at (suc i) inserted)) (ground arith)
      ∙ (get-remove_behind (suc i) (suc j) inserted (omega (arith, k))
          ∙ get-insert_at (suc j) id l b))

  Moved-down : i < j → Moved i j id l (remove_at i inserted)
  Moved-down k = removed i (get-insert_before i (suc j) id l (omega (arith, k)) a ∙ h) (
      ap (get_elem? (remove_at i inserted)) (ground arith)
      ∙ (get-remove_before i j inserted (omega (arith, k)) ∙ get-insert_at (suc j) id l b))

  stayed : i ≡ j → Moved i j id l (remove_at (suc i) inserted)
  stayed k = removed (suc i) (ap (get_elem? inserted) (ap suc k) ∙ get-insert_at (suc j) id l b) (
      ap (get_elem? (remove_at (suc i) inserted)) (ground (arith, k))
      ∙ (get-remove_behind (suc i) i inserted (omega arith)
          ∙ (get-insert_before i (suc j) id l (omega (arith, k)) a ∙ h)))

  pub moved_to-Moved : Moved i j id l (moved_to i j id l)
  moved_to-Moved =
      if_split (Moved i j id l) (ltb i j) (remove_at i inserted) (remove_at (suc i) inserted)
        (λ k. Moved-down (ltb→lt i j k))
        (λ k. elim (Bool-cases (ltb j i)) [
          | inl e ↦ Moved-up (ltb→lt j i e)
          | inr e ↦ stayed (ground arith)
        ])

-- Moving a profile from one place to another of the list puts it behind the profile that stood there
-- (and leaves it where it is when the two are one); the other profiles keep their order, and none
-- comes or goes.
pub emplace_profile-Moved :
    (i j : ℕ) (id : ℤ) (profiles : List ℤ)
    → get_elem? profiles i ≡ some id
    → i < length profiles
    → j < length profiles
    → (l : List ℤ) × ((emplace_profile (pos i) (pos j) profiles ≡ some (l, true))
        × Moved i j id profiles l)
unfolding emplace_profile
emplace_profile-Moved i j id profiles h a b =
    let inside : (leb (length profiles) i || leb (length profiles) j) ≡ false = ground arith in
    (moved_to i j id profiles, (rw (inside, h) refl, moved_to-Moved i j id profiles h a b))
