-- ===== src/Stats/Manager/Ledger.antt =====
-- What the statistics manager promises: every byte that is credited is held once, in the
-- accumulators or in the tables (src/stats/traffic/TrafficStatsManager.cpp).
use free_link_app.Common.{
  ◌≢◌, ◌⊎◌, ℕ, ℤ, ℤ_eq, String_eq, String, ◌+◌, ◌≡◌, refl, Bool, true, false, not, ◌&&◌, List, [],
  ◌∷◌, arith, Eq, ◌==◌, if◌then◌else◌, inl, inr, Bool-cases, nat_eq,
}
use free_link_app.Stats.Table.{Row, Direction, upload, download, pick, total, total-upsert_all}
use free_link_app.Stats.Repo.{
  Tier, upsert_minute_batch, upsert_config_minute_batch, upsert_app_minute_batch,
}
use free_link_app.Stats.Repo.Totals.{tier_total, for_key}
use free_link_app.Stats.Manager.{
  Surroundings, Delta, Manager, add_delta, drain_accum, drain_locked, roll_bucket, write_rows,
  flush,
}

module _ {ℓ} {K : Type ℓ} ⦃e : Eq K⦄ where
  -- What an accumulator holds for a key.
  abbrev pub pending : Direction → K → List (K × Delta) → ℕ
  pending d k [] = 0
  pending d k ((j, x) ∷ m) = (if j == k then pick d x.up x.down else 0) + pending d k m

  pub pending-add_delta :
      (d : Direction) (k j : K) (up down : ℕ) (m : List (K × Delta))
      → pending d k (add_delta j up down m) ≡ (if j == k then pick d up down else 0) + pending d k m
  unfolding add_delta
  pending-add_delta d k j up down [] = refl
  pending-add_delta upload k j up down ((i, x) ∷ m) =
      ground (arith, e.beq_iff i j, pending-add_delta upload k j up down m)
  pending-add_delta download k j up down ((i, x) ∷ m) =
      ground (arith, e.beq_iff i j, pending-add_delta download k j up down m)

  -- Draining drops only entries that hold nothing.
  pub total-drain_accum :
      (d : Direction) (k : K) (bucket : ℕ) (m : List (K × Delta))
      → total d (for_key k) (drain_accum bucket m) ≡ pending d k m
  unfolding drain_accum
  total-drain_accum d k bucket [] = refl
  total-drain_accum upload k bucket ((j, x) ∷ m) =
      ground (arith, total-drain_accum upload k bucket m)
  total-drain_accum download k bucket ((j, x) ∷ m) =
      ground (arith, total-drain_accum download k bucket m)

  abbrev pub stored : Direction → K → Tier K → ℕ
  stored d k t = tier_total d (for_key k) t

  pub stored-upsert_minute_batch :
      (d : Direction) (k : K) (failed : Bool) (rows : List (Row K)) (t : Tier K)
      → stored d k (upsert_minute_batch failed rows t)
        ≡ (if failed then 0 else total d (for_key k) rows) + stored d k t
  unfolding upsert_minute_batch
  stored-upsert_minute_batch d k true [] t = omega arith
  stored-upsert_minute_batch d k false [] t = omega arith
  stored-upsert_minute_batch d k true (r ∷ rows) t = omega arith
  stored-upsert_minute_batch d k false (r ∷ rows) t =
      omega (arith, total-upsert_all d (for_key k) (r ∷ rows) t.minute)

abbrev pub held_config : Direction → ℤ → Manager → ℕ
held_config d k m = pending d k m.config_accum + stored d k m.repo.config

abbrev pub held_app : Direction → String → Manager → ℕ
held_app d k m = pending d k m.app_accum + stored d k m.repo.app

-- The database is there and takes the batches.
pub record Healthy (w : Surroundings) : Type 0 where
  pub present : w.repo_present ≡ true
  pub config_ok : w.config_fails ≡ false
  pub app_ok : w.app_fails ≡ false

module _ (d : Direction) (w : Surroundings) (cfg : List (Row ℤ)) (app : List (Row String))
    (m : Manager) where
  pub config-write_rows :
      (k : ℤ)
      → held_config d k (write_rows w cfg app m)
        ≡ (if w.repo_present && not w.config_fails then total d (for_key k) cfg else 0)
          + held_config d k m
  unfolding write_rows upsert_config_minute_batch upsert_app_minute_batch
  config-write_rows k =
      ground (arith, stored-upsert_minute_batch d k w.config_fails cfg m.repo.config)

  pub app-write_rows :
      (k : String)
      → held_app d k (write_rows w cfg app m)
        ≡ (if w.repo_present && not w.app_fails then total d (for_key k) app else 0)
          + held_app d k m
  unfolding write_rows upsert_config_minute_batch upsert_app_minute_batch
  app-write_rows k = ground (arith, stored-upsert_minute_batch d k w.app_fails app m.repo.app)

module _ (d : Direction) (bucket : ℕ) (m : Manager) where
  pub config-roll_bucket :
      (k : ℤ)
      → total d (for_key k) (roll_bucket bucket m).0 + held_config d k (roll_bucket bucket m).2
        ≡ held_config d k m
  unfolding roll_bucket drain_locked
  config-roll_bucket k = ground (arith, total-drain_accum d k m.current_bucket m.config_accum)

  pub app-roll_bucket :
      (k : String)
      → total d (for_key k) (roll_bucket bucket m).1 + held_app d k (roll_bucket bucket m).2
        ≡ held_app d k m
  unfolding roll_bucket drain_locked
  app-roll_bucket k = ground (arith, total-drain_accum d k m.current_bucket m.app_accum)

-- A batch that fails changes nothing.
refused_batch :
    {K : Type 0}
    → ⦃e : Eq K⦄ → (rows : List (Row K)) (t : Tier K) → upsert_minute_batch true rows t ≡ t
unfolding upsert_minute_batch
refused_batch [] t = refl
refused_batch (r ∷ rows) t = refl

refused_rows :
    (w : Surroundings) (cfg : List (Row ℤ)) (app : List (Row String)) (m : Manager)
    → (w.repo_present ≡ false) ⊎ ((w.config_fails ≡ true) × (w.app_fails ≡ true))
    → write_rows w cfg app m ≡ m
unfolding write_rows upsert_config_minute_batch upsert_app_minute_batch
refused_rows w cfg app m (inl gone) = rw gone refl
refused_rows w cfg app m (inr (c, a)) = elim (Bool-cases w.repo_present) [
  | inl e ↦ rw (e, c, a, refused_batch cfg m.repo.config, refused_batch app m.repo.app) refl
  | inr e ↦ rw e refl
]

-- When both batches are refused or the database is gone, a flush that has a bucket to write loses
-- what the accumulators held: they are empty afterwards and the tables are as they were.
pub flush_failed :
    (w : Surroundings) (m : Manager)
    → w.disabled ≡ false
    → m.current_bucket ≢ 0
    → (w.repo_present ≡ false) ⊎ ((w.config_fails ≡ true) × (w.app_fails ≡ true))
    → ((flush w m).config_accum ≡ []) × ((flush w m).app_accum ≡ []) × ((flush w m).repo ≡ m.repo)
unfolding flush drain_locked write_rows
flush_failed w m on busy broken =
    let left = record m { config_accum = []; app_accum = [] } in
    let cfg = drain_accum m.current_bucket m.config_accum in
    let app = drain_accum m.current_bucket m.app_accum in
    let lost = refused_rows w cfg app left broken in
    let bucket : nat_eq m.current_bucket 0 ≡ false = ground arith in
    rw (on, bucket, lost) (refl, refl, refl)
