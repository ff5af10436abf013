-- ===== src/Subscription/Filter/Uniq.antt =====
-- Which profiles Uniq leaves (src/database/entities/Profile.cpp).
use mathlib.Core.List.{append-nil, append_assoc}
use free_link_app.Common.{
  ◌≡◌, refl, sym, ap, ◌∙◌, String, String_eq, Bool, true, false, not, ◌&&◌, ◌||◌, none, some, List,
  [], ◌∷◌, ◌++◌, Eq, ◌==◌, if◌then◌else◌, keep, keep-append, is_none, lookup, insert, lookup-insert,
  All, All-every, All-snoc, All-keep, All-map, keep-cong, keep-keep, keep_all, arith, Option-cases,
  Bool-cases, inl, inr,
}
use free_link_app.Subscription.Filter.{Seen, uniq_step, uniq_loop, uniq}

module _ {A : Type 0} (key : A → String) where
  abbrev pub has_key : String → List A → Bool
  has_key k [] = false
  has_key k (x ∷ xs) = key x == k || has_key k xs

  -- The first profile of each key, in order.
  abbrev pub firsts : List A → List A
  firsts [] = []
  firsts (x ∷ xs) = x ∷ keep (λ y. not (key x == key y)) (firsts xs)

  -- The last profile of each key, in order.
  abbrev pub lasts : List A → List A
  lasts [] = []
  lasts (x ∷ xs) = let rest = lasts xs in if has_key (key x) xs then rest else x ∷ rest

module _ {A : Type 0} ⦃e : Eq A⦄ (key : A → String) where
  abbrev unseen : List (String × A) → A → Bool
  unseen seen x = is_none (lookup (key x) seen)

  skipped_seen :
      (x y : A) (seen : List (String × A)) (old : A)
      → lookup (key x) seen ≡ some old
      → (not (key x == key y) && unseen seen y) ≡ unseen seen y
  skipped_seen x y seen old found = elim (Bool-cases (key x == key y)) [
    | inl same ↦ rw same (rw (← (String_eq.beq_iff (key x) (key y)).0 same) (rw found refl))
    | inr other ↦ rw other refl
  ]

  skipped_new :
      (x y : A) (seen : List (String × A))
      → (not (key x == key y) && unseen seen y) ≡ unseen (insert (key x) x seen) y
  skipped_new x y seen = ground (arith, lookup-insert (key x) (key y) x seen)

  step_new :
      (b : Bool) (x : A) (seen : List (String × A)) (out : List A)
      → lookup (key x) seen ≡ none
      → uniq_step key b x (seen, out) ≡ (insert (key x) x seen, out ++ x ∷ [])
  unfolding uniq_step
  step_new b x seen out new = rw (new, uniq_step) refl

  step_old :
      (b : Bool) (x old : A) (seen : List (String × A)) (out : List A)
      → lookup (key x) seen ≡ some old
      → uniq_step key b x (seen, out) ≡ (
          if b
          then (insert (key x) x seen, keep (λ y. not (y == old)) out ++ x ∷ [])
          else (seen, out))
  unfolding uniq_step
  step_old b x old seen out found = rw (found, uniq_step) refl

  firsts-uniq_loop :
      (ents : List A) (s : Seen key)
      → (uniq_loop key false ents s).1 ≡ s.1 ++ keep (unseen s.0) (firsts key ents)
  unfolding uniq_loop
  firsts-uniq_loop [] s = sym (append-nil _)
  firsts-uniq_loop (x ∷ xs) (seen, out) = elim (Option-cases (lookup (key x) seen)) [
    | inl new ↦
        let later = keep-keep (unseen seen) (λ y. not (key x == key y)) (firsts key xs) in
        let same = keep-cong _ _ (firsts key xs) (
          All-every
            (λ y. (not (key x == key y) && unseen seen y) ≡ unseen (insert (key x) x seen) y)
            (λ y. skipped_new x y seen) (firsts key xs)) in
        ap (λ t. (uniq_loop key false xs t).1) (step_new false x seen out new)
        ∙ (firsts-uniq_loop xs (insert (key x) x seen, out ++ x ∷ [])
            ∙ rw (new, later, same) (append_assoc out (x ∷ []) _))
    | inr (old, found) ↦
        let later = keep-keep (unseen seen) (λ y. not (key x == key y)) (firsts key xs) in
        let same = keep-cong _ _ (firsts key xs) (
          All-every (λ y. (not (key x == key y) && unseen seen y) ≡ unseen seen y)
            (λ y. skipped_seen x y seen old found) (firsts key xs)) in
        ap (λ t. (uniq_loop key false xs t).1) (step_old false x old seen out found)
        ∙ (firsts-uniq_loop xs (seen, out) ∙ rw (found, later, same) refl)
  ]

  -- The map has the listed profile of each key, and nothing under another profile's key.
  abbrev Indexed : List (String × A) → List A → Type 0
  Indexed seen out =
      All (λ x. lookup (key x) seen ≡ some x) out
      × ((k : String) (x : A) → lookup k seen ≡ some x → key x ≡ k)

  lasts_kept : List A → A → Bool
  lasts_kept ents x = not (has_key key (key x) ents)

  -- A listed profile has another key than one that is not in the map.
  new_apart :
      (x y : A) (seen : List (String × A)) (xs : List A)
      → lookup (key x) seen ≡ none
      → lookup (key y) seen ≡ some y
      → lasts_kept xs y ≡ lasts_kept (x ∷ xs) y
  unfolding lasts_kept
  new_apart x y seen xs new h = elim (Bool-cases (key x == key y)) [
    | inl same ↦
        let e = (String_eq.beq_iff (key x) (key y)).0 same in
        let clash : none ≡ some y = sym new ∙ (ap (λ k. lookup k seen) e ∙ h) in cc
    | inr other ↦ rw other refl
  ]

  -- A listed profile is the one that the map has exactly if it has the key.
  old_apart :
      (x y old : A) (seen : List (String × A)) (xs : List A)
      → lookup (key x) seen ≡ some old
      → key old ≡ key x
      → lookup (key y) seen ≡ some y
      → (not (y == old) && lasts_kept xs y) ≡ lasts_kept (x ∷ xs) y
  unfolding lasts_kept
  old_apart x y old seen xs found owns h = elim (Bool-cases (key x == key y)) [
    | inl same ↦
        let k = (String_eq.beq_iff (key x) (key y)).0 same in
        let one : some old ≡ some y = sym found ∙ (ap (λ t. lookup t seen) k ∙ h) in
        let here : y ≡ old = cc in rw (same, (e.beq_iff y old).1 here) refl
    | inr other ↦ elim (Bool-cases (y == old)) [
      | inl here ↦
          let at_old : y ≡ old = (e.beq_iff y old).0 here in
          let k : key x ≡ key y = sym owns ∙ sym (ap key at_old) in
          let clash = (String_eq.beq_iff (key x) (key y)).1 k in cc
      | inr away ↦ rw (other, away) refl
    ]
  ]

  Indexed-insert :
      (x : A) (seen : List (String × A)) (out : List A)
      → All (λ y. (lookup (key y) seen ≡ some y) × ((key x == key y) ≡ false)) out
      → ((k : String) (y : A) → lookup k seen ≡ some y → key y ≡ k)
      → Indexed (insert (key x) x seen) (out ++ x ∷ [])
  Indexed-insert x seen out h owns = (
    All-snoc _ out x
        (All-map _ (λ y. lookup (key y) (insert (key x) x seen) ≡ some y) out h
          (λ y k. rw (lookup-insert (key x) (key y) x seen, k.1) k.0))
        (rw (lookup-insert (key x) (key x) x seen, (String_eq.beq_iff (key x) (key x)).1 refl)
          refl),
    λ k y g. elim (Bool-cases (key x == k)) [
      | inl here ↦
          let there = sym (lookup-insert (key x) k x seen) ∙ g in
          let same : some x ≡ some y = rw here at there in
          let k' = (String_eq.beq_iff (key x) k).0 here in
          let e' : x ≡ y = cc in sym (ap key e') ∙ k'
      | inr away ↦
          let there = sym (lookup-insert (key x) k x seen) ∙ g in owns k y (rw away at there)
    ],
  )

  -- A listed profile that is not dropped for `old` has another key than `x`.
  away_from_old :
      (x y old : A) (seen : List (String × A))
      → lookup (key x) seen ≡ some old
      → lookup (key y) seen ≡ some y
      → not (y == old) ≡ true
      → (key x == key y) ≡ false
  away_from_old x y old seen found h away = elim (Bool-cases (key x == key y)) [
    | inl same ↦
        let k = (String_eq.beq_iff (key x) (key y)).0 same in
        let one : some old ≡ some y = sym found ∙ (ap (λ t. lookup t seen) k ∙ h) in
        let here : y ≡ old = cc in let equal = (e.beq_iff y old).1 here in cc
    | inr other ↦ other
  ]

  away_from_new :
      (x y : A) (seen : List (String × A))
      → lookup (key x) seen ≡ none
      → lookup (key y) seen ≡ some y
      → (key x == key y) ≡ false
  away_from_new x y seen new h = elim (Bool-cases (key x == key y)) [
    | inl same ↦
        let k = (String_eq.beq_iff (key x) (key y)).0 same in
        let clash : none ≡ some y = sym new ∙ (ap (λ t. lookup t seen) k ∙ h) in cc
    | inr other ↦ other
  ]

  lasts_step :
      (x : A) (xs out : List A)
      → keep (lasts_kept xs) (out ++ x ∷ []) ++ lasts key xs
        ≡ keep (lasts_kept xs) out ++ lasts key (x ∷ xs)
  unfolding lasts_kept
  lasts_step x xs out = elim (Bool-cases (has_key key (key x) xs)) [
    | inl later ↦
        rw (keep-append (lasts_kept xs) out (x ∷ []), later, append-nil (keep (lasts_kept xs) out))
          refl
    | inr last ↦
        rw (keep-append (lasts_kept xs) out (x ∷ []), last)
          (append_assoc (keep (lasts_kept xs) out) (x ∷ []) (lasts key xs))
  ]

  lasts-uniq_loop :
      (ents : List A) (s : Seen key)
      → Indexed s.0 s.1
      → (uniq_loop key true ents s).1 ≡ keep (lasts_kept ents) s.1 ++ lasts key ents
  unfolding uniq_loop lasts_kept
  lasts-uniq_loop [] (seen, out) h = sym (append-nil _ ∙ keep_all _ out (λ x. refl))
  lasts-uniq_loop (x ∷ xs) (seen, out) h = elim (Option-cases (lookup (key x) seen)) [
    | inl new ↦
        ap (λ t. (uniq_loop key true xs t).1) (step_new true x seen out new)
        ∙ (lasts-uniq_loop xs (insert (key x) x seen, out ++ x ∷ [])
              (Indexed-insert x seen out
                (All-map _ _ out h.0 (λ y g. (g, away_from_new x y seen new g))) h.1)
            ∙ (lasts_step x xs out
                ∙ ap (λ l. l ++ lasts key (x ∷ xs))
                    (keep-cong _ _ out (All-map _ _ out h.0 (λ y g. new_apart x y seen xs new g)))))
    | inr (old, found) ↦
        let left = keep (λ y. not (y == old)) out in
        ap (λ t. (uniq_loop key true xs t).1) (step_old true x old seen out found)
        ∙ (lasts-uniq_loop xs (insert (key x) x seen, left ++ x ∷ [])
              (Indexed-insert x seen left
                (All-keep _ _ _ out h.0 (λ y g away. (g, away_from_old x y old seen found g away)))
                h.1)
            ∙ (lasts_step x xs left
                ∙ ap (λ l. l ++ lasts key (x ∷ xs))
                    (keep-keep _ _ out
                      ∙ keep-cong _ _ out (
                          All-map _ _ out h.0
                            (λ y g. old_apart x y old seen xs found (h.1 (key x) old found) g)))))
  ]

-- Uniq leaves one profile of each key: without `keep_last` the first one, with it the last one, in
-- the order of the profiles that are left.
pub uniq_lem :
    {A : Type 0} ⦃e : Eq A⦄ (key : A → String) (keep_last : Bool) (ents : List A)
    → uniq key keep_last ents ≡ (if keep_last then lasts key ents else firsts key ents)
unfolding uniq
uniq_lem key true ents = lasts-uniq_loop key ents ([], []) (tt, λ k x h. cc)
uniq_lem key false ents =
    firsts-uniq_loop key ents ([], []) ∙ keep_all _ (firsts key ents) (λ x. refl)
