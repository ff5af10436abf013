-- ===== src/Groups/Examples.antt =====
-- Edits of small groups (src/database/entities/Group.cpp).
use free_link_app.Common.{
  ◌≡◌, refl, ℤ, pos, negsuc, ℤ_eq, true, false, none, some, List, [], ◌∷◌, arith,
}
use free_link_app.Groups.{
  add_profile, append_missing, add_profile_batch, remove_profile, swap_profiles, emplace_profile,
}
use free_link_app.Groups.Positions.{Moved, emplace_profile-Moved}
use free_link_app.Groups.Unique.{emplaces, edit, Unique, edit-Unique}

abbrev three : List ℤ
three = pos 4 ∷ pos 7 ∷ pos 9 ∷ []

added_again : add_profile (pos 7) three ≡ (three, false)
unfolding add_profile
added_again = refl

-- The set of profiles that a batch is compared with is that from before the call.
batch_twice : add_profile_batch (pos 5 ∷ pos 5 ∷ []) [] ≡ (pos 5 ∷ pos 5 ∷ [], true)
unfolding add_profile_batch append_missing
batch_twice = refl

removed : remove_profile (pos 7) three ≡ (pos 4 ∷ pos 9 ∷ [], true)
unfolding remove_profile
removed = refl

swapped_ends : swap_profiles (pos 0) (pos 2) three ≡ some (pos 9 ∷ pos 7 ∷ pos 4 ∷ [], true)
unfolding swap_profiles
swapped_ends = refl

negative_index : emplace_profile (negsuc 0) (pos 1) three ≡ none
unfolding emplace_profile
negative_index = refl

emplace_profile-Moved_example :
    (l : List ℤ) × ((emplace_profile (pos 2) (pos 0) three ≡ some (l, true))
      × Moved 2 0 (pos 9) three l)
emplace_profile-Moved_example =
    emplace_profile-Moved 2 0 (pos 9) three refl (omega arith) (omega arith)

three-Unique : Unique three
three-Unique x = ground arith

edit-Unique_example : Unique (pos 4 ∷ pos 9 ∷ pos 7 ∷ [])
unfolding edit emplace_profile
edit-Unique_example =
    edit-Unique (emplaces (pos 2) (pos 0)) three (pos 4 ∷ pos 9 ∷ pos 7 ∷ [], true) tt three-Unique
      refl
