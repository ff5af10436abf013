-- ===== src/Subscription/Merge/Order.antt =====
-- The order and the members of a group after an update (src/configs/sub/GroupUpdater.cpp).
use free_link_app.Common.{
  ◌≡◌, refl, sym, ap, ◌∙◌, ℕ, suc, ℤ, ℤ_eq, String, String_eq, Bool, true, false, not, Option, none,
  some, List, [], ◌∷◌, Eq, ◌==◌, if◌then◌else◌, keep, map, contains, lookup, insert, lookup-insert,
  All, All-map, arith, Option-cases, Bool-cases, inl, inr,
}
use free_link_app.Groups.{get_elem?}
use free_link_app.Subscription.Filter.{index_last, matching, common, only_in_src_by_pointer}
use free_link_app.Subscription.Merge.{index_of, remote_order, unlisted, merge}

module _ {A : Type 0} ⦃e : Eq A⦄ (key : A → String) where
  -- The last profile with a key.
  abbrev pub last_of : String → List A → Option A
  last_of k [] = none
  last_of k (x ∷ xs) =
      let here = if key x == k then some x else none in
      elim (last_of k xs) [ none ↦ here | some y ↦ some y ]

  abbrev or_else : Option A → Option A → Option A
  or_else none d = d
  or_else (some y) d = some y

  or_else_if :
      (b : Bool) (x : A) (d : Option A)
      → (if b then some x else d) ≡ or_else (if b then some x else none) d
  or_else_if true x d = refl
  or_else_if false x d = refl

  lookup-index_last :
      (k : String) (src : List A) (m : List (String × A))
      → lookup k (index_last key src m) ≡ or_else (last_of k src) (lookup k m)
  unfolding index_last
  lookup-index_last k [] m = refl
  lookup-index_last k (x ∷ xs) m = elim (Option-cases (last_of k xs)) [
    | inl gone ↦
        lookup-index_last k xs (insert (key x) x m)
        ∙ rw (gone, lookup-insert (key x) k x m) (or_else_if (key x == k) x (lookup k m))
    | inr (y, later) ↦ lookup-index_last k xs (insert (key x) x m) ∙ rw later refl
  ]

  unmatched :
      (m : List (String × A)) (ents : List A) (ent : A)
      → lookup (key ent) m ≡ none
      → index_of ent (matching key m ents).1 ≡ none
  unfolding matching index_of
  unmatched m [] ent gone = refl
  unmatched m (x ∷ xs) ent gone = elim (Option-cases (lookup (key x) m)) [
    | inl e' ↦ rw (e', matching) (unmatched m xs ent gone)
    | inr (old, e') ↦ elim (Bool-cases (x == ent)) [
      | inl same ↦
          let here = ap (λ t. lookup (key t) m) ((e.beq_iff x ent).0 same) in
          let clash : some old ≡ none = sym e' ∙ (here ∙ gone) in cc
      | inr other ↦ rw (e', matching, other, unmatched m xs ent gone) refl
    ]
  ]

  matched :
      (m : List (String × A)) (ents : List A) (ent old : A)
      → lookup (key ent) m ≡ some old
      → contains ents ent ≡ true
      → (i : ℕ) × (index_of ent (matching key m ents).1 ≡ some i)
        × (get_elem? (matching key m ents).0 i ≡ some old)
  unfolding matching index_of
  matched m [] ent old found h = cc
  matched m (x ∷ xs) ent old found h = elim (Bool-cases (x == ent)) [
    | inl same ↦
        let here : lookup (key x) m ≡ some old =
          ap (λ t. lookup (key t) m) ((e.beq_iff x ent).0 same) ∙ found in
        (0, rw (here, matching, same) refl, rw (here, matching) refl)
    | inr other ↦
        let (i, p, g) = matched m xs ent old found (rw other at h) in
        elim (Option-cases (lookup (key x) m)) [
          | inl e' ↦ (i, rw (e', matching) p, rw (e', matching) g)
          | inr (y, e') ↦ (suc i, rw (e', matching, other, p) refl, rw (e', matching) g)
        ]
  ]

module _ {A : Type 0} ⦃e : Eq A⦄ (key : A → String) (id : A → ℤ) where
  -- The profile that stands for one from the remote: the last one that the group had with its key,
  -- or itself.
  abbrev pub stands_for : List A → A → ℤ
  stands_for before ent = elim (last_of key (key ent) before) [ none ↦ id ent | some old ↦ id old ]

  -- A profile that the texts gave: in the group now, and not before.
  abbrev pub Arrived : List A → List A → A → Type 0
  Arrived before out_all ent = (contains out_all ent ≡ true) × (contains before ent ≡ false)

  contains-keep :
      (p : A → Bool) (xs : List A) (x : A)
      → contains xs x ≡ true
      → p x ≡ true
      → contains (keep p xs) x ≡ true
  contains-keep p [] x h k = cc
  contains-keep p (y ∷ ys) x h k = elim (Bool-cases (y == x)) [
    | inl same ↦ let there : p y ≡ true = ap p ((e.beq_iff y x).0 same) ∙ k in rw (there, same) refl
    | inr other ↦
        let later = contains-keep p ys x (rw other at h) k in
        elim (Bool-cases (p y)) [ inl s ↦ rw (s, other) later | inr s ↦ rw s later ]
  ]

  order_own :
      (update_keep update_del : List A) (x : A) (xs : List A)
      → index_of x update_del ≡ none
      → remote_order key id update_keep update_del (x ∷ xs)
        ≡ id x ∷ remote_order key id update_keep update_del xs
  unfolding remote_order
  order_own update_keep update_del x xs gone = rw (gone, remote_order) refl

  order_old :
      (update_keep update_del : List A) (x old : A) (xs : List A) (i : ℕ)
      → index_of x update_del ≡ some i
      → get_elem? update_keep i ≡ some old
      → remote_order key id update_keep update_del (x ∷ xs)
        ≡ id old ∷ remote_order key id update_keep update_del xs
  unfolding remote_order
  order_old update_keep update_del x old xs i at found = rw (at, remote_order, found) refl

  stands_own :
      (before : List A) (x : A) → last_of key (key x) before ≡ none → stands_for before x ≡ id x
  stands_own before x gone = rw (gone, stands_for) refl

  stands_old :
      (before : List A) (x old : A)
      → last_of key (key x) before ≡ some old
      → stands_for before x ≡ id old
  stands_old before x old found = rw (found, stands_for) refl

  remote_order_from :
      (before out ents : List A)
      → All (λ ent. contains out ent ≡ true) ents
      → remote_order key id (common key before out).0 (common key before out).1 ents
        ≡ map (stands_for before) ents
  unfolding common remote_order
  remote_order_from before out [] h = refl
  remote_order_from before out (x ∷ xs) h =
      let m = index_last key before [] in
      let both = matching key m out in
      let at = lookup-index_last key (key x) before [] in
      elim (Option-cases (last_of key (key x) before)) [
        | inl gone ↦
            order_own both.0 both.1 x xs (unmatched key m out x (at ∙ rw gone refl))
            ∙ (ap (λ l. id x ∷ l) (remote_order_from before out xs h.1)
                ∙ ap (λ n. n ∷ map (stands_for before) xs) (sym (stands_own before x gone)))
        | inr (old, found) ↦
            let (i, p, g) = matched key m out x old (at ∙ rw found refl) h.0 in
            order_old both.0 both.1 x old xs i p g
            ∙ (ap (λ l. id old ∷ l) (remote_order_from before out xs h.1)
                ∙ ap (λ n. n ∷ map (stands_for before) xs) (sym (stands_old before x old found)))
      ]

  -- After an update the group lists the profiles of the remote in its order, where each that the
  -- group had already, by its link, is the last old profile with that link.
  pub profiles-merge :
      (before out_all updated_order : List A)
      → All (Arrived before out_all) updated_order
      → (merge key id before out_all updated_order).profiles ≡ map (stands_for before) updated_order
  unfolding merge only_in_src_by_pointer
  profiles-merge before out_all updated_order h =
      remote_order_from before (only_in_src_by_pointer out_all before) updated_order (
        All-map _ _ updated_order h
          (λ x a. contains-keep (λ ent. not (contains before ent)) out_all x a.0 (rw a.1 refl)))

  unlisted-absent :
      (profiles : List ℤ) (ents : List A) (n : ℤ)
      → contains profiles n ≡ true
      → contains (unlisted id profiles ents) n ≡ false
  unfolding unlisted
  unlisted-absent profiles [] n h = refl
  unlisted-absent profiles (x ∷ xs) n h = elim (Bool-cases (contains profiles (id x))) [
    | inl listed ↦ rw listed (unlisted-absent profiles xs n h)
    | inr gone ↦ elim (Bool-cases (id x == n)) [
      | inl same ↦
          let here = ap (contains profiles) ((ℤ_eq.beq_iff (id x) n).0 same) in
          let clash : false ≡ true = sym gone ∙ (here ∙ h) in cc
      | inr other ↦ rw (gone, other) (unlisted-absent profiles xs n h)
    ]
  ]

  del_ids-absent :
      (before out_all updated_order : List A) (n : ℤ)
      → contains (merge key id before out_all updated_order).profiles n ≡ true
      → contains (merge key id before out_all updated_order).del_ids n ≡ false
  unfolding merge
  del_ids-absent before out_all updated_order n h = unlisted-absent _ out_all n h

  contains-map :
      (f : A → ℤ) (ents : List A) (x : A)
      → contains ents x ≡ true
      → contains (map f ents) (f x) ≡ true
  contains-map f [] x h = cc
  contains-map f (y ∷ ys) x h = elim (Bool-cases (y == x)) [
    | inl same ↦
        let here = (ℤ_eq.beq_iff (f y) (f x)).1 (ap f ((e.beq_iff y x).0 same)) in rw here refl
    | inr other ↦ let later = contains-map f ys x (rw other at h) in ground arith
  ]

  -- Whatever the remote lists stays: the profile that stands for it is in the group and is not
  -- deleted.
  pub merge-keeps :
      (before out_all updated_order : List A) (ent : A)
      → All (Arrived before out_all) updated_order
      → contains updated_order ent ≡ true
      → let after = merge key id before out_all updated_order in
        (contains after.profiles (stands_for before ent) ≡ true)
        × (contains after.del_ids (stands_for before ent) ≡ false)
  merge-keeps before out_all updated_order ent h k =
      let listed =
        ap (λ l. contains l (stands_for before ent)) (profiles-merge before out_all updated_order h)
        ∙ contains-map (stands_for before) updated_order ent k in
      (listed, del_ids-absent before out_all updated_order (stands_for before ent) listed)
