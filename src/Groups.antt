-- ===== src/Groups.antt =====
-- The list of profiles of a group (src/database/entities/Group.cpp). A call that reads or writes
-- outside the list, as one with a negative index does, is `none`.
pub mod Positions
pub mod Unique
mod Examples
use free_link_app.Common.{
  ℕ, zero, suc, ℤ, pos, negsuc, ℤ_eq, Bool, true, false, not, ◌||◌, Option, none, some, List, [],
  ◌∷◌, ◌++◌, Eq, ◌==◌, if◌then◌else◌, leb, ltb, contains, keep, length,
}

module _ {ℓ} {A : Type ℓ} where
  -- QList::at
  abbrev pub get_elem? : List A → ℕ → Option A
  get_elem? [] n = none
  get_elem? (x ∷ xs) zero = some x
  get_elem? (x ∷ xs) (suc n) = get_elem? xs n

  -- QList::insert, up to the end
  abbrev pub insert_at : ℕ → A → List A → List A
  insert_at zero a xs = a ∷ xs
  insert_at (suc n) a [] = a ∷ []
  insert_at (suc n) a (x ∷ xs) = x ∷ insert_at n a xs

  -- QList::remove
  abbrev pub remove_at : ℕ → List A → List A
  remove_at n [] = []
  remove_at zero (x ∷ xs) = xs
  remove_at (suc n) (x ∷ xs) = x ∷ remove_at n xs

  abbrev pub set_at : ℕ → A → List A → List A
  set_at n a [] = []
  set_at zero a (x ∷ xs) = a ∷ xs
  set_at (suc n) a (x ∷ xs) = x ∷ set_at n a xs

-- A group's profiles and what the call returned.
abbrev pub Edited : Type 0
Edited = List ℤ × Bool

-- HasProfile
abbrev pub has_profile : ℤ → List ℤ → Bool
has_profile id profiles = contains profiles id

-- AddProfile
unfoldable pub add_profile : ℤ → List ℤ → Edited
add_profile id profiles =
    if has_profile id profiles then (profiles, false) else (profiles ++ id ∷ [], true)

-- The loop of AddProfileBatch; `current` is the set of the profiles before the call.
unfoldable pub append_missing : List ℤ → List ℤ → List ℤ → List ℤ
append_missing current [] profiles = profiles
append_missing current (id ∷ ids) profiles =
    append_missing current ids (if not (contains current id) then profiles ++ id ∷ [] else profiles)

-- AddProfileBatch
unfoldable pub add_profile_batch : List ℤ → List ℤ → Edited
unfolding append_missing
add_profile_batch ids profiles = (append_missing profiles ids profiles, true)

-- RemoveProfile
unfoldable pub remove_profile : ℤ → List ℤ → Edited
remove_profile id profiles =
    if not (has_profile id profiles)
    then (profiles, false)
    else (keep (λ x. not (x == id)) profiles, true)

-- RemoveProfileBatch
unfoldable pub remove_profile_batch : List ℤ → List ℤ → Edited
remove_profile_batch ids profiles = (keep (λ x. not (contains ids x)) profiles, true)

-- profiles.size() <= idx
abbrev pub past_end : List ℤ → ℤ → Bool
past_end profiles (pos i) = leb (length profiles) i
past_end profiles (negsuc i) = false

abbrev pub swapped : Option ℤ → Option ℤ → ℕ → ℕ → List ℤ → Option Edited
swapped (some a) (some b) i j profiles = some (set_at j a (set_at i b profiles), true)
swapped _ _ i j profiles = none

abbrev pub swap_at : ℤ → ℤ → List ℤ → Option Edited
swap_at (pos i) (pos j) profiles =
    swapped (get_elem? profiles i) (get_elem? profiles j) i j profiles
swap_at _ _ profiles = none

-- SwapProfiles
unfoldable pub swap_profiles : ℤ → ℤ → List ℤ → Option Edited
swap_profiles idx1 idx2 profiles =
    if past_end profiles idx1 || past_end profiles idx2
    then some (profiles, false)
    else swap_at idx1 idx2 profiles

-- The insert and the remove of EmplaceProfile.
abbrev pub moved_to : ℕ → ℕ → ℤ → List ℤ → List ℤ
moved_to i j id profiles =
    let inserted = insert_at (suc j) id profiles in
    if ltb i j then remove_at i inserted else remove_at (suc i) inserted

abbrev pub emplaced : Option ℤ → ℕ → ℕ → List ℤ → Option Edited
emplaced none i j profiles = none
emplaced (some id) i j profiles = some (moved_to i j id profiles, true)

abbrev pub emplace_at : ℤ → ℤ → List ℤ → Option Edited
emplace_at (pos i) (pos j) profiles = emplaced (get_elem? profiles i) i j profiles
emplace_at _ _ profiles = none

-- EmplaceProfile
unfoldable pub emplace_profile : ℤ → ℤ → List ℤ → Option Edited
emplace_profile idx new_idx profiles =
    if past_end profiles idx || past_end profiles new_idx
    then some (profiles, false)
    else emplace_at idx new_idx profiles
