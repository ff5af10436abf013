-- ===== src/Stats/Repo/Totals.antt =====
-- What the maintenance of src/database/TrafficStatsRepo.cpp keeps: sums over both tiers.
use free_link_app.Common.{
  ℤ, String, ℤ_eq, String_eq, ℕ, ◌+◌, ◌*◌, ◌≤◌, ◌≡◌, refl, ap, Bool, true, false, not, ◌&&◌, List,
  [], ◌∷◌, ◌++◌, map, arith, Eq, ◌==◌, ltb, leb, if◌then◌else◌, keep,
}
use free_link_app.Stats.Table.{
  Row, Direction, upload, download, pick, amount, total, total-append, total-keep, upsert_all,
  total-upsert_all,
}
use free_link_app.Stats.Repo.{
  Tier, Usage, hour_of, older, to_hour, in_window, prune_tier, rollup_tier, add_usage, group_usage,
  query_usage, Repo, rollup_minute_to_hour, prune_hour,
}

module _ {ℓ} {K : Type ℓ} where
  abbrev pub tier_total : Direction → (ℕ → K → Bool) → Tier K → ℕ
  tier_total d p t = total d p t.minute + total d p t.hour

  -- A test that does not look inside an hour.
  abbrev pub OnHours : (ℕ → K → Bool) → Type ℓ
  OnHours p = (b : ℕ) (k : K) → p (hour_of b) k ≡ p b k

  total-to_hour :
      (d : Direction) (p : ℕ → K → Bool) (t : List (Row K))
      → OnHours p
      → total d p (map to_hour t) ≡ total d p t
  total-to_hour d p [] h = refl
  total-to_hour upload p (r ∷ t) h =
      rw (h r.bucket_start r.key)
        (ap (λ n. (if p r.bucket_start r.key then r.up else 0) + n) (total-to_hour upload p t h))
  total-to_hour download p (r ∷ t) h =
      rw (h r.bucket_start r.key) (
        ap (λ n. (if p r.bucket_start r.key then r.down else 0) + n) (total-to_hour download p t h))

module _ {ℓ} {K : Type ℓ} ⦃e : Eq K⦄ where
  -- Moving old minute rows to their hours changes no sum over whole hours.
  pub total-rollup_tier :
      (d : Direction) (p : ℕ → K → Bool) (cutoff : ℕ) (t : Tier K)
      → OnHours p
      → tier_total d p (rollup_tier cutoff t) ≡ tier_total d p t
  unfolding rollup_tier
  total-rollup_tier d p cutoff t h = omega (
    arith,
    total-upsert_all d p (upsert_all (map to_hour (keep (older cutoff) t.minute)) []) t.hour,
    total-upsert_all d p (map to_hour (keep (older cutoff) t.minute)) [],
    total-to_hour d p (keep (older cutoff) t.minute) h,
    total-keep d p (older cutoff) t.minute,
  )

  -- What a usage list reports for a key.
  abbrev pub reported : Direction → K → List (Usage K) → ℕ
  reported d k [] = 0
  reported d k (u ∷ us) = (if u.key == k then pick d u.up u.down else 0) + reported d k us

  abbrev pub for_key : K → ℕ → K → Bool
  for_key k b j = j == k

  reported-add_usage :
      (d : Direction) (k : K) (r : Row K) (us : List (Usage K))
      → reported d k (add_usage r us) ≡ (if r.key == k then amount d r else 0) + reported d k us
  unfolding add_usage
  reported-add_usage d k r [] = refl
  reported-add_usage upload k r (u ∷ us) =
      ground (arith, e.beq_iff u.key r.key, reported-add_usage upload k r us)
  reported-add_usage download k r (u ∷ us) =
      ground (arith, e.beq_iff u.key r.key, reported-add_usage download k r us)

  reported-group_usage :
      (d : Direction) (k : K) (rs : List (Row K)) (us : List (Usage K))
      → reported d k (group_usage rs us) ≡ total d (for_key k) rs + reported d k us
  unfolding group_usage
  reported-group_usage d k [] us = omega arith
  reported-group_usage d k (r ∷ rs) us =
      omega (arith, reported-group_usage d k rs (add_usage r us), reported-add_usage d k r us)

  abbrev pub windowed : ℕ → ℕ → K → ℕ → K → Bool
  windowed from to k b j = leb from b && ltb b to && j == k

  total-window :
      (d : Direction) (k : K) (from to : ℕ) (t : List (Row K))
      → total d (for_key k) (keep (in_window from to) t) ≡ total d (windowed from to k) t
  total-window d k from to [] = refl
  total-window d k from to (r ∷ t) = ground (arith, total-window d k from to t)

  pub reported-query_usage :
      (d : Direction) (k : K) (from to : ℕ) (t : Tier K)
      → reported d k (query_usage from to t) ≡ tier_total d (windowed from to k) t
  unfolding query_usage
  reported-query_usage d k from to t = omega (
    arith,
    reported-group_usage d k (keep (in_window from to) (t.minute ++ t.hour)) [],
    total-window d k from to (t.minute ++ t.hour),
    total-append d (windowed from to k) t.minute t.hour,
  )

  windowed-OnHours : (k : K) (a b : ℕ) → OnHours (windowed (a * 3600) (b * 3600) k)
  windowed-OnHours k a b c j = ground arith

  reported-rollup_tier :
      (d : Direction) (k : K) (a b cutoff : ℕ) (t : Tier K)
      → reported d k (query_usage (a * 3600) (b * 3600) (rollup_tier cutoff t))
        ≡ reported d k (query_usage (a * 3600) (b * 3600) t)
  reported-rollup_tier d k a b cutoff t = omega (
    arith,
    reported-query_usage d k (a * 3600) (b * 3600) (rollup_tier cutoff t),
    reported-query_usage d k (a * 3600) (b * 3600) t,
    total-rollup_tier d (windowed (a * 3600) (b * 3600) k) cutoff t (windowed-OnHours k a b),
  )

  total-prune :
      (d : Direction) (k : K) (from to cutoff : ℕ) (t : List (Row K))
      → cutoff ≤ from
      → total d (windowed from to k) (keep (λ r. not (older cutoff r)) t)
        ≡ total d (windowed from to k) t
  total-prune d k from to cutoff [] h = refl
  total-prune d k from to cutoff (r ∷ t) h = ground (arith, total-prune d k from to cutoff t h)

  reported-prune_tier :
      (d : Direction) (k : K) (from to cutoff : ℕ) (t : Tier K)
      → cutoff ≤ from
      → reported d k (query_usage from to (prune_tier cutoff t))
        ≡ reported d k (query_usage from to t)
  unfolding prune_tier
  reported-prune_tier d k from to cutoff t h = omega (
    arith,
    reported-query_usage d k from to (prune_tier cutoff t),
    reported-query_usage d k from to t,
    total-prune d k from to cutoff t.hour h,
  )

abbrev pub SameUsage : Direction → ℕ → ℕ → Repo → Repo → Type 0
SameUsage d from to r s =
    ((k : ℤ)
      → reported d k (query_usage from to r.config) ≡ reported d k (query_usage from to s.config))
    × ((k : String)
        → reported d k (query_usage from to r.app) ≡ reported d k (query_usage from to s.app))

-- Over a window of whole hours, the usage that the two queries report for each config and each app
-- is the same before and after a rollup with any cutoff, whether or not its transaction failed.
pub usage-rollup_minute_to_hour :
    (d : Direction) (a b cutoff : ℕ) (failed : Bool) (r : Repo)
    → SameUsage d (a * 3600) (b * 3600) (rollup_minute_to_hour failed cutoff r) r
unfolding rollup_minute_to_hour
usage-rollup_minute_to_hour d a b cutoff true r = ((λ k. refl), λ k. refl)
usage-rollup_minute_to_hour d a b cutoff false r = (
  (λ k. reported-rollup_tier d k a b cutoff r.config),
  λ k. reported-rollup_tier d k a b cutoff r.app,
)

-- Pruning with a cutoff changes no usage report over a window that begins at or after the cutoff.
pub usage-prune_hour :
    (d : Direction) (from to cutoff : ℕ) (failed : Bool) (r : Repo)
    → cutoff ≤ from
    → SameUsage d from to (prune_hour failed cutoff r) r
unfolding prune_hour
usage-prune_hour d from to cutoff true r h = ((λ k. refl), λ k. refl)
usage-prune_hour d from to cutoff false r h = (
  (λ k. reported-prune_tier d k from to cutoff r.config h),
  λ k. reported-prune_tier d k from to cutoff r.app h,
)
