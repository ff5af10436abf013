-- ===== src/Stats/Repo/Keys.antt =====
-- The primary keys of the tables of src/database/TrafficStatsRepo.cpp, and the alignment of rows.
use free_link_app.Common.{
  ℕ, ℤ, String, ◌*◌, ◌/◌, ◌≡◌, refl, Bool, true, false, not, ◌&&◌, List, [], ◌∷◌, map, arith, Eq,
  ℤ_eq, String_eq, keep, All,
}
use free_link_app.Stats.Table.{Row, same_key, upsert, upsert_all}
use free_link_app.Stats.Repo.{
  Tier, Repo, created, older, to_hour, upsert_minute_batch, prune_tier, rollup_tier,
  upsert_config_minute_batch, upsert_app_minute_batch, rollup_minute_to_hour, prune_hour,
}

module _ {ℓ} {K : Type ℓ} ⦃e : Eq K⦄ where
  -- No row of the table has the key of this one.
  abbrev pub absent : Row K → List (Row K) → Bool
  absent r [] = true
  absent r (s ∷ t) = not (same_key s r) && absent r t

  abbrev pub IsKeyed : List (Row K) → Type 0
  IsKeyed [] = Unit {0}
  IsKeyed (r ∷ t) = (absent r t ≡ true) × IsKeyed t

  absent-upsert :
      (q r : Row K) (t : List (Row K))
      → absent q t ≡ true
      → same_key r q ≡ false
      → absent q (upsert r t) ≡ true
  unfolding upsert
  absent-upsert q r [] h n = ground arith
  absent-upsert q r (s ∷ t) h n = ground (arith, absent-upsert q r t)

  same_key_trans : (r s : Row K) → same_key s r ≡ false → same_key r s ≡ false
  same_key_trans r s h = ground (arith, e.beq_iff s.key r.key, e.beq_iff r.key s.key)

  upsert-IsKeyed : (r : Row K) (t : List (Row K)) → IsKeyed t → IsKeyed (upsert r t)
  unfolding upsert
  upsert-IsKeyed r [] h = (refl, tt)
  upsert-IsKeyed r (s ∷ t) h =
      ground (arith, upsert-IsKeyed r t h.1, absent-upsert s r t h.0, same_key_trans r s)

  pub upsert_all-IsKeyed : (rs t : List (Row K)) → IsKeyed t → IsKeyed (upsert_all rs t)
  unfolding upsert_all
  upsert_all-IsKeyed [] t h = h
  upsert_all-IsKeyed (r ∷ rs) t h = upsert_all-IsKeyed rs (upsert r t) (upsert-IsKeyed r t h)

  absent-keep :
      (p : Row K → Bool) (q : Row K) (t : List (Row K))
      → absent q t ≡ true
      → absent q (keep p t) ≡ true
  absent-keep p q [] h = refl
  absent-keep p q (s ∷ t) h = ground (arith, absent-keep p q t)

  keep-IsKeyed : (p : Row K → Bool) (t : List (Row K)) → IsKeyed t → IsKeyed (keep p t)
  keep-IsKeyed p [] h = tt
  keep-IsKeyed p (s ∷ t) h = ground (arith, keep-IsKeyed p t h.1, absent-keep p s t h.0)

module _ {ℓ} {K : Type ℓ} ⦃e : Eq K⦄ where
  -- Every row starts at a multiple of `n` seconds.
  abbrev pub Aligned : ℕ → List (Row K) → Type 0
  Aligned n t = All (λ r. r.bucket_start / n * n ≡ r.bucket_start) t

  upsert-Aligned :
      (n : ℕ) (r : Row K) (t : List (Row K))
      → r.bucket_start / n * n ≡ r.bucket_start
      → Aligned n t
      → Aligned n (upsert r t)
  unfolding upsert
  upsert-Aligned n r [] a h = (a, tt)
  upsert-Aligned n r (s ∷ t) a h = ground (arith, upsert-Aligned n r t a h.1)

  pub upsert_all-Aligned :
      (n : ℕ) (rs t : List (Row K)) → Aligned n rs → Aligned n t → Aligned n (upsert_all rs t)
  unfolding upsert_all
  upsert_all-Aligned n [] t a h = h
  upsert_all-Aligned n (r ∷ rs) t a h =
      upsert_all-Aligned n rs (upsert r t) a.1 (upsert-Aligned n r t a.0 h)

  keep-Aligned : (n : ℕ) (p : Row K → Bool) (t : List (Row K)) → Aligned n t → Aligned n (keep p t)
  keep-Aligned n p [] h = tt
  keep-Aligned n p (s ∷ t) h = ground (arith, keep-Aligned n p t h.1)

  map-to_hour-Aligned : (t : List (Row K)) → Aligned 3600 (map to_hour t)
  map-to_hour-Aligned [] = tt
  map-to_hour-Aligned (s ∷ t) = (omega arith, map-to_hour-Aligned t)

module _ {ℓ} {K : Type ℓ} ⦃e : Eq K⦄ where
  pub record TierValid (t : Tier K) : Type 0 where
    pub minute_keys : IsKeyed t.minute
    pub hour_keys : IsKeyed t.hour
    pub minutes : Aligned 60 t.minute
    pub hours : Aligned 3600 t.hour

  upsert_minute_batch-TierValid :
      (failed : Bool) (rows : List (Row K)) (t : Tier K)
      → Aligned 60 rows
      → TierValid t
      → TierValid (upsert_minute_batch failed rows t)
  unfolding upsert_minute_batch
  upsert_minute_batch-TierValid failed [] t a v = v
  upsert_minute_batch-TierValid true (r ∷ rows) t a v = v
  upsert_minute_batch-TierValid false (r ∷ rows) t a v = record {
    minute_keys = upsert_all-IsKeyed (r ∷ rows) t.minute v.minute_keys;
    hour_keys = v.hour_keys;
    minutes = upsert_all-Aligned 60 (r ∷ rows) t.minute a v.minutes;
    hours = v.hours;
  }

  rollup_tier-TierValid : (cutoff : ℕ) (t : Tier K) → TierValid t → TierValid (rollup_tier cutoff t)
  unfolding rollup_tier
  rollup_tier-TierValid cutoff t v = record {
    minute_keys = keep-IsKeyed _ t.minute v.minute_keys;
    hour_keys = upsert_all-IsKeyed _ t.hour v.hour_keys;
    minutes = keep-Aligned 60 _ t.minute v.minutes;
    hours =
        upsert_all-Aligned 3600 _ t.hour
          (upsert_all-Aligned 3600 (map to_hour (keep (older cutoff) t.minute)) []
            (map-to_hour-Aligned (keep (older cutoff) t.minute)) tt)
          v.hours;
  }

  prune_tier-TierValid : (cutoff : ℕ) (t : Tier K) → TierValid t → TierValid (prune_tier cutoff t)
  unfolding prune_tier
  prune_tier-TierValid cutoff t v = record {
    minute_keys = v.minute_keys;
    hour_keys = keep-IsKeyed _ t.hour v.hour_keys;
    minutes = v.minutes;
    hours = keep-Aligned 3600 _ t.hour v.hours;
  }

-- Primary keys are unique and rows stand on the boundaries of their tier, for configs and apps.
pub record RepoValid (r : Repo) : Type 0 where
  pub config : TierValid r.config
  pub app : TierValid r.app

pub created-RepoValid : RepoValid created
created-RepoValid = record {
  config = record { minute_keys = tt; hour_keys = tt; minutes = tt; hours = tt };
  app = record { minute_keys = tt; hour_keys = tt; minutes = tt; hours = tt };
}

pub batches-RepoValid :
    (failed failed' : Bool) (cfg : List (Row ℤ)) (app : List (Row String)) (r : Repo)
    → Aligned 60 cfg
    → Aligned 60 app
    → RepoValid r
    → RepoValid (upsert_app_minute_batch failed' app (upsert_config_minute_batch failed cfg r))
unfolding upsert_app_minute_batch upsert_config_minute_batch
batches-RepoValid failed failed' cfg app r a b v = record {
  config = upsert_minute_batch-TierValid failed cfg r.config a v.config;
  app = upsert_minute_batch-TierValid failed' app r.app b v.app;
}

pub rollup_minute_to_hour-RepoValid :
    (failed : Bool) (cutoff : ℕ) (r : Repo)
    → RepoValid r
    → RepoValid (rollup_minute_to_hour failed cutoff r)
unfolding rollup_minute_to_hour
rollup_minute_to_hour-RepoValid true cutoff r v = v
rollup_minute_to_hour-RepoValid false cutoff r v = record {
  config = rollup_tier-TierValid cutoff r.config v.config;
  app = rollup_tier-TierValid cutoff r.app v.app;
}

pub prune_hour-RepoValid :
    (failed : Bool) (cutoff : ℕ) (r : Repo) → RepoValid r → RepoValid (prune_hour failed cutoff r)
unfolding prune_hour
prune_hour-RepoValid true cutoff r v = v
prune_hour-RepoValid false cutoff r v = record {
  config = prune_tier-TierValid cutoff r.config v.config;
  app = prune_tier-TierValid cutoff r.app v.app;
}
