-- ===== src/Subscription/Filter.antt =====
-- ProfileFilter (src/database/entities/Profile.cpp). A profile is a pointer; `key` is the link that
-- ProfileFilter_ent_key exports for it.
pub mod Uniq
use free_link_app.Common.{
  String, String_eq, Bool, true, false, not, Option, none, some, List, [], ◌∷◌, ◌++◌, Eq, ◌==◌,
  if◌then◌else◌, keep, contains, is_none, lookup, insert, foldl,
}

module _ {A : Type 0} ⦃e : Eq A⦄ (key : A → String) where
  -- The map of keys and the output list of Uniq.
  abbrev pub Seen : Type 0
  Seen = List (String × A) × List A

  -- One round of the loop of Uniq.
  unfoldable pub uniq_step : Bool → A → Seen → Seen
  uniq_step keep_last ent (seen, out) = elim (lookup (key ent) seen) [
    | none ↦ (insert (key ent) ent seen, out ++ ent ∷ [])
    | some old ↦
        if keep_last
        then (insert (key ent) ent seen, keep (λ x. not (x == old)) out ++ ent ∷ [])
        else (seen, out)
  ]

  unfoldable pub uniq_loop : Bool → List A → Seen → Seen
  uniq_loop keep_last [] s = s
  uniq_loop keep_last (ent ∷ ents) s = uniq_loop keep_last ents (uniq_step keep_last ent s)

  -- Uniq, with an empty list to fill.
  unfoldable pub uniq : Bool → List A → List A
  unfolding uniq_loop
  uniq keep_last ents = (uniq_loop keep_last ents ([], [])).1

  -- The first loop of Common: the map of the source's keys, in which a later profile wins.
  unfoldable pub index_last : List A → List (String × A) → List (String × A)
  index_last [] m = m
  index_last (ent ∷ ents) m = index_last ents (insert (key ent) ent m)

  -- The second loop of Common, with outSrc and outDst.
  unfoldable pub matching : List (String × A) → List A → List A × List A
  matching m [] = ([], [])
  matching m (ent ∷ ents) =
      let rest = matching m ents in
      elim (lookup (key ent) m) [ none ↦ rest | some old ↦ (old ∷ rest.0, ent ∷ rest.1) ]

  unfoldable pub common : List A → List A → List A × List A
  unfolding index_last matching
  common src dst = matching (index_last src []) dst

  -- OnlyInSrc
  unfoldable pub only_in_src : List A → List A → List A
  unfolding index_last
  only_in_src src dst =
      let keys = index_last dst [] in keep (λ ent. is_none (lookup (key ent) keys)) src

-- OnlyInSrc_ByPointer
unfoldable pub only_in_src_by_pointer : {A : Type 0} ⦃e : Eq A⦄ → List A → List A → List A
only_in_src_by_pointer src dst = keep (λ ent. not (contains dst ent)) src
