-- ===== src/Stats/Table.antt =====
-- The traffic tables of src/database/TrafficStatsRepo.cpp: rows under the primary key
-- (bucket_start, profile_id) or (bucket_start, process_name), and the statements on them.
-- Byte counts and epoch seconds are natural numbers: no total reaches 2^63.
use free_link_app.Common.{
  ℕ, ◌+◌, ◌≡◌, refl, Bool, not, ◌&&◌, List, [], ◌∷◌, ◌++◌, arith, Eq, ◌==◌, nat_eq, if◌then◌else◌,
  keep,
}

pub record Row {ℓ} (K : Type ℓ) : Type ℓ where
  pub bucket_start : ℕ
  pub key : K
  pub up : ℕ
  pub down : ℕ

pub data Direction : Type 0 where
  upload download : Direction

abbrev pub pick : Direction → ℕ → ℕ → ℕ
pick upload u d = u
pick download u d = d

module _ {ℓ} {K : Type ℓ} where
  abbrev pub amount : Direction → Row K → ℕ
  amount d r = pick d r.up r.down

  -- What the rows that pass a test on their primary key hold.
  abbrev pub total : Direction → (ℕ → K → Bool) → List (Row K) → ℕ
  total d p [] = 0
  total d p (r ∷ t) = (if p r.bucket_start r.key then amount d r else 0) + total d p t

  pub total-append :
      (d : Direction) (p : ℕ → K → Bool) (s t : List (Row K))
      → total d p (s ++ t) ≡ total d p s + total d p t
  total-append d p [] t = omega arith
  total-append d p (r ∷ s) t = omega (arith, total-append d p s t)

  -- A delete splits a table in what it leaves and what it takes.
  pub total-keep :
      (d : Direction) (p : ℕ → K → Bool) (q : Row K → Bool) (t : List (Row K))
      → total d p (keep (λ r. not (q r)) t) + total d p (keep q t) ≡ total d p t
  total-keep d p q [] = omega arith
  total-keep d p q (r ∷ t) = ground (arith, total-keep d p q t)

module _ {ℓ} {K : Type ℓ} ⦃e : Eq K⦄ where
  abbrev pub same_key : Row K → Row K → Bool
  same_key s r = nat_eq s.bucket_start r.bucket_start && s.key == r.key

  -- INSERT … ON CONFLICT DO UPDATE SET up = up + excluded.up, down = down + excluded.down
  unfoldable pub upsert : Row K → List (Row K) → List (Row K)
  upsert r [] = r ∷ []
  upsert r (s ∷ t) =
      if same_key s r
      then record s { up = s.up + r.up; down = s.down + r.down } ∷ t
      else s ∷ upsert r t

  unfoldable pub upsert_all : List (Row K) → List (Row K) → List (Row K)
  upsert_all [] t = t
  upsert_all (r ∷ rs) t = upsert_all rs (upsert r t)

  pub total-upsert :
      (d : Direction) (p : ℕ → K → Bool) (r : Row K) (t : List (Row K))
      → total d p (upsert r t) ≡ (if p r.bucket_start r.key then amount d r else 0) + total d p t
  unfolding upsert
  total-upsert d p r [] = refl
  total-upsert upload p r (s ∷ t) = ground (arith, total-upsert upload p r t, e.beq_iff s.key r.key)
  total-upsert download p r (s ∷ t) =
      ground (arith, total-upsert download p r t, e.beq_iff s.key r.key)

  pub total-upsert_all :
      (d : Direction) (p : ℕ → K → Bool) (rs t : List (Row K))
      → total d p (upsert_all rs t) ≡ total d p rs + total d p t
  unfolding upsert_all
  total-upsert_all d p [] t = omega arith
  total-upsert_all d p (r ∷ rs) t =
      omega (arith, total-upsert_all d p rs (upsert r t), total-upsert d p r t)
