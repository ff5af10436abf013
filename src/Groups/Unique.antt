-- ===== src/Groups/Unique.antt =====
-- A group has a profile once, whatever is edited (src/database/entities/Group.cpp).
use free_link_app.Common.{
  ◌≡◌, refl, sym, ap, ◌∙◌, ◌<◌, ◌≤◌, ℕ, zero, suc, ◌+◌, ℤ, pos, negsuc, ℤ_eq, Bool, false, not,
  ◌&&◌, ◌||◌, Option, none, some, List, [], ◌∷◌, ◌++◌, ◌==◌, if◌then◌else◌, leb, length, arith,
  Bool-cases, inl, inr, keep, contains, int_eq_iff, if_rule, if_split,
}
use free_link_app.Groups.{
  get_elem?, swapped, emplaced, swap_at, set_at, Edited, has_profile, add_profile, append_missing,
  add_profile_batch, remove_profile, remove_profile_batch, swap_profiles, emplace_profile, past_end,
}
use free_link_app.Groups.Positions.{times, times-set_at, moved_to-Moved}

-- A call that edits the list.
pub data Edit : Type 0 where
  adds : ℤ → Edit
  adds_batch : List ℤ → Edit
  removes : ℤ → Edit
  removes_batch : List ℤ → Edit
  swaps : ℤ → ℤ → Edit
  emplaces : ℤ → ℤ → Edit

unfoldable pub edit : Edit → List ℤ → Option Edited
edit (adds id) l = some (add_profile id l)
edit (adds_batch ids) l = some (add_profile_batch ids l)
edit (removes id) l = some (remove_profile id l)
edit (removes_batch ids) l = some (remove_profile_batch ids l)
edit (swaps i j) l = swap_profiles i j l
edit (emplaces i j) l = emplace_profile i j l

-- No profile stands twice.
abbrev pub Unique : List ℤ → Type 0
Unique l = (x : ℤ) → times x l ≤ 1

-- A batch that is added has no profile twice.
abbrev pub Proper : Edit → Type 0
Proper (adds_batch ids) = Unique ids
Proper _ = Unit

module _ (x : ℤ) where
  times-snoc : (l : List ℤ) (a : ℤ) → times x (l ++ a ∷ []) ≡ times x l + (if a == x then 1 else 0)
  times-snoc [] a = omega arith
  times-snoc (y ∷ ys) a = omega (arith, times-snoc ys a)

  times-absent : (l : List ℤ) → contains l x ≡ false → times x l ≡ 0
  times-absent [] h = refl
  times-absent (y ∷ ys) h = ground (arith, times-absent ys)

  times-keep : (p : ℤ → Bool) (l : List ℤ) → times x (keep p l) ≤ times x l
  times-keep p [] = omega arith
  times-keep p (y ∷ ys) =
      if_rule (λ l. times x l ≤ times x (y ∷ ys)) (p y) _ _ (omega (arith, times-keep p ys))
        (omega (arith, times-keep p ys))

  times-append_missing :
      (current ids l : List ℤ)
      → times x (append_missing current ids l)
        ≡ times x l + (if contains current x then 0 else times x ids)
  unfolding append_missing
  times-append_missing current [] l = ground arith
  times-append_missing current (id ∷ ids) l =
      let l' = if not (contains current id) then l ++ id ∷ [] else l in
      let rest = times-append_missing current ids l' in
      let grown : times x l' ≡ times x l + (if not (contains current id) && id == x then 1 else 0) =
        ground (arith, times-snoc l id) in
      elim (Bool-cases (id == x)) [
        | inl e ↦
            let same : contains current id ≡ contains current x =
              ap (contains current) ((int_eq_iff id x).0 e) in
            ground (arith, rest, grown, same, e)
        | inr e ↦ ground (arith, rest, grown, e)
      ]

get-set_at :
    (i j : ℕ) (a b : ℤ) (l : List ℤ)
    → get_elem? l i ≡ some a
    → get_elem? l j ≡ some b
    → get_elem? (set_at i b l) j ≡ some b
get-set_at i j a b [] h k = cc
get-set_at zero zero a b (y ∷ ys) h k = refl
get-set_at zero (suc j) a b (y ∷ ys) h k = k
get-set_at (suc i) zero a b (y ∷ ys) h k = k
get-set_at (suc i) (suc j) a b (y ∷ ys) h k = get-set_at i j a b ys h k

swapped-times :
    (x : ℤ) (i j : ℕ) (a b : ℤ) (l : List ℤ)
    → get_elem? l i ≡ some a
    → get_elem? l j ≡ some b
    → times x (set_at j a (set_at i b l)) ≡ times x l
swapped-times x i j a b l h k = omega (
  arith,
  times-set_at x i a b l h,
  times-set_at x j b a (set_at i b l) (get-set_at i j a b l h k),
)

-- What an edit leaves in the list is there as often as before.
abbrev Same : List ℤ → Option Edited → Type 0
Same l o = (d : Edited) → o ≡ some d → (x : ℤ) → times x d.0 ≡ times x l

Same-none : (l : List ℤ) → Same l none
Same-none l d h = cc

Same-some : (l : List ℤ) (d : Edited) → ((x : ℤ) → times x d.0 ≡ times x l) → Same l (some d)
Same-some l d f e h x = let back : d ≡ e = cc in ap (λ (t : Edited). times x t.0) (sym back) ∙ f x

swapped-Same :
    (oa ob : Option ℤ) (i j : ℕ) (l : List ℤ)
    → get_elem? l i ≡ oa
    → get_elem? l j ≡ ob
    → Same l (swapped oa ob i j l)
swapped-Same (some a) (some b) i j l h k = Same-some l _ (λ x. swapped-times x i j a b l h k)
swapped-Same (some a) none i j l h k = Same-none l
swapped-Same none (some b) i j l h k = Same-none l
swapped-Same none none i j l h k = Same-none l

emplaced-Same :
    (o : Option ℤ) (i j : ℕ) (l : List ℤ)
    → get_elem? l i ≡ o
    → i < length l
    → j < length l
    → Same l (emplaced o i j l)
emplaced-Same none i j l h a b = Same-none l
emplaced-Same (some id) i j l h a b = Same-some l _ (moved_to-Moved i j id l h a b).members

-- A swap or a move that does not read outside the list leaves each profile in it as often as before.
swap_profiles-Same : (i j : ℤ) (l : List ℤ) → Same l (swap_profiles i j l)
unfolding swap_profiles
swap_profiles-Same i j l =
    if_rule (Same l) (past_end l i || past_end l j) _ _ (Same-some l (l, false) (λ x. refl))
      (swap_at-Same i j)
  where
    swap_at-Same : (i j : ℤ) → Same l (swap_at i j l)
    swap_at-Same (pos i) (pos j) = swapped-Same (get_elem? l i) (get_elem? l j) i j l refl refl
    swap_at-Same (pos i) (negsuc j) = Same-none l
    swap_at-Same (negsuc i) j = Same-none l

emplace_profile-Same : (i j : ℤ) (l : List ℤ) → Same l (emplace_profile i j l)
unfolding emplace_profile
emplace_profile-Same (pos i) (pos j) l =
    if_split (Same l) (leb (length l) i || leb (length l) j) _ _
      (λ _. Same-some l (l, false) (λ x. refl))
      (λ h. emplaced-Same (get_elem? l i) i j l refl (ground (arith, h)) (ground (arith, h)))
emplace_profile-Same (pos i) (negsuc j) l =
    if_rule (Same l) (leb (length l) i || false) _ _ (Same-some l (l, false) (λ x. refl))
      (Same-none l)
emplace_profile-Same (negsuc i) (pos j) l =
    if_rule (Same l) (leb (length l) j) _ _ (Same-some l (l, false) (λ x. refl)) (Same-none l)
emplace_profile-Same (negsuc i) (negsuc j) l = Same-none l

add_profile-Unique : (id : ℤ) (l : List ℤ) → Unique l → Unique (add_profile id l).0
unfolding add_profile
add_profile-Unique id l u x = elim (Bool-cases (has_profile id l)) [
  | inl e ↦ rw e (u x)
  | inr e ↦ rw e (elim (Bool-cases (id == x)) [
    | inl k ↦
        let none_yet : contains l x ≡ false = ap (contains l) (sym ((int_eq_iff id x).0 k)) ∙ e in
        ground (arith, times-snoc x l id, times-absent x l none_yet, k)
    | inr k ↦ ground (arith, times-snoc x l id, u x, k)
  ])
]

remove_profile-Unique : (id : ℤ) (l : List ℤ) → Unique l → Unique (remove_profile id l).0
unfolding remove_profile
remove_profile-Unique id l u x =
    if_rule (λ (d : Edited). times x d.0 ≤ 1) (not (has_profile id l)) _ _ (u x)
      (omega (arith, u x, times-keep x (λ y. not (y == id)) l))

add_profile_batch-Unique :
    (ids l : List ℤ) → Unique ids → Unique l → Unique (append_missing l ids l)
add_profile_batch-Unique ids l v u x = elim (Bool-cases (contains l x)) [
  | inl e ↦ ground (arith, times-append_missing x l ids l, u x, e)
  | inr e ↦ ground (arith, times-append_missing x l ids l, times-absent x l e, v x, e)
]

-- Every edit of a group that does not read outside the list keeps each profile in it at most once,
-- where a batch that is added must itself have no profile twice.
pub edit-Unique :
    (c : Edit) (l : List ℤ) (d : Edited) → Proper c → Unique l → edit c l ≡ some d → Unique d.0
unfolding edit add_profile_batch remove_profile_batch
edit-Unique (adds id) l d p u h x =
    let back : add_profile id l ≡ d = cc in rw⁻¹ back (add_profile-Unique id l u x)
edit-Unique (adds_batch ids) l d p u h x =
    let back : add_profile_batch ids l ≡ d = cc in rw⁻¹ back (add_profile_batch-Unique ids l p u x)
edit-Unique (removes id) l d p u h x =
    let back : remove_profile id l ≡ d = cc in rw⁻¹ back (remove_profile-Unique id l u x)
edit-Unique (removes_batch ids) l d p u h x =
    let back : remove_profile_batch ids l ≡ d = cc in
    rw⁻¹ back (omega (arith, u x, times-keep x (λ y. not (contains ids y)) l))
edit-Unique (swaps i j) l d p u h x = rw (swap_profiles-Same i j l d h x) (u x)
edit-Unique (emplaces i j) l d p u h x = rw (emplace_profile-Same i j l d h x) (u x)
