-- ===== src/Subscription/Merge.antt =====
-- The end of GroupUpdater::Update (src/configs/sub/GroupUpdater.cpp), where the profiles are not
-- cleared first: the group's list after an update and the profiles to delete.
pub mod Order
use free_link_app.Common.{
  ℕ, suc, ℤ, ℤ_eq, String, Bool, true, false, not, Option, none, some, List, [], ◌∷◌, Eq, ◌==◌,
  if◌then◌else◌, keep, map,
}
use free_link_app.Groups.{get_elem?, has_profile}
use free_link_app.Subscription.Filter.{common, only_in_src, only_in_src_by_pointer}

-- QList::indexOf
unfoldable pub index_of : {A : Type 0} ⦃e : Eq A⦄ → A → List A → Option ℕ
index_of a [] = none
index_of a (x ∷ xs) =
    let rest = index_of a xs in
    if x == a then some 0 else elim rest [ none ↦ none | some i ↦ some (suc i) ]

pub record Merge (A : Type 0) : Type 0 where
  -- group->profiles
  pub profiles : List ℤ
  pub del_ids : List ℤ
  pub only_out : List A
  pub only_in : List A

-- The loop of the cleanup.
unfoldable pub unlisted : {A : Type 0} → (A → ℤ) → List ℤ → List A → List ℤ
unlisted id profiles ents = map id (keep (λ ent. not (has_profile (id ent) profiles)) ents)

module _ {A : Type 0} ⦃e : Eq A⦄ (key : A → String) (id : A → ℤ) where
  -- The loop that sorts according to the order in the remote.
  unfoldable pub remote_order : List A → List A → List A → List ℤ
  remote_order update_keep update_del [] = []
  remote_order update_keep update_del (ent ∷ ents) =
      let rest = remote_order update_keep update_del ents in
      elim (index_of ent update_del) [
        | none ↦ id ent ∷ rest
        | some i ↦ elim (get_elem? update_keep i) [ none ↦ rest | some old ↦ id old ∷ rest ]
      ]

  -- The group had the profiles `before`, and has `out_all` with those that the texts gave,
  -- `updated_order`.
  unfoldable pub merge : List A → List A → List A → Merge A
  merge before out_all updated_order =
      let out = only_in_src_by_pointer out_all before in
      let both = common key before out in
      let profiles = remote_order both.0 both.1 updated_order in
      record {
        profiles = profiles;
        del_ids = unlisted id profiles out_all;
        only_out = only_in_src key out before;
        only_in = only_in_src key before out;
      }
