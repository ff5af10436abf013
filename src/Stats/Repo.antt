-- ===== src/Stats/Repo.antt =====
-- src/database/TrafficStatsRepo.cpp: a tier pair (minute rows, hour rows) for the configs and one
-- for the apps, the two metadata tables, and the statements of each method. A write method runs in
-- one transaction: `failed` says that a statement of it threw, so that it was rolled back.
pub mod Totals
pub mod Keys
pub mod Meta
use free_link_app.Common.{
  ℕ, ℤ, String, ◌+◌, ◌*◌, ◌/◌, Bool, not, ◌&&◌, List, [], ◌∷◌, ◌++◌, map, Eq, ◌==◌, ℤ_eq, String_eq,
  ltb, leb, if◌then◌else◌, keep, is_empty,
}
use free_link_app.Stats.Table.{Row, upsert_all}

pub record Tier {ℓ} (K : Type ℓ) : Type ℓ where
  pub minute : List (Row K)
  pub hour : List (Row K)

pub record Usage {ℓ} (K : Type ℓ) : Type ℓ where
  pub key : K
  pub up : ℕ
  pub down : ℕ

pub record ConfigMetaRow : Type 0 where
  pub profile_id : ℤ
  pub name : String
  pub group_name : String
  pub config_type : String
  pub server_address : String
  pub first_seen : ℕ
  pub last_seen : ℕ

pub record AppMetaRow : Type 0 where
  pub process_name : String
  pub last_path : String
  pub first_seen : ℕ
  pub last_seen : ℕ

pub record Repo : Type 0 where
  pub config : Tier ℤ
  pub app : Tier String
  pub config_meta : List ConfigMetaRow
  pub app_meta : List AppMetaRow

-- createTables
abbrev pub created : Repo
created = record {
  config = record { minute = []; hour = [] };
  app = record { minute = []; hour = [] };
  config_meta = [];
  app_meta = [];
}

-- BEGIN IMMEDIATE … COMMIT, with ROLLBACK if a statement threw.
abbrev pub transaction {ℓ} : {A : Type ℓ} → Bool → A → A → A
transaction failed old new = if failed then old else new

-- (bucket_start / 3600) * 3600
abbrev pub hour_of : ℕ → ℕ
hour_of b = b / 3600 * 3600

module _ {ℓ} {K : Type ℓ} where
  abbrev pub older : ℕ → Row K → Bool
  older cutoff r = ltb r.bucket_start cutoff

  abbrev pub to_hour : Row K → Row K
  to_hour r = record r { bucket_start = hour_of r.bucket_start }

  -- WHERE bucket_start >= ? AND bucket_start < ?
  abbrev pub in_window : ℕ → ℕ → Row K → Bool
  in_window from to r = leb from r.bucket_start && ltb r.bucket_start to

  -- DELETE FROM … WHERE bucket_start < ?
  unfoldable pub prune_tier : ℕ → Tier K → Tier K
  prune_tier cutoff t = record t { hour = keep (λ r. not (older cutoff r)) t.hour }

module _ {ℓ} {K : Type ℓ} ⦃e : Eq K⦄ where
  unfoldable pub upsert_minute_batch : Bool → List (Row K) → Tier K → Tier K
  upsert_minute_batch failed rows t =
      if is_empty rows
      then t
      else transaction failed t (record t { minute = upsert_all rows t.minute })

  -- SELECT … SUM(up), SUM(down) … GROUP BY, then the upsert of each group and the delete.
  unfoldable pub rollup_tier : ℕ → Tier K → Tier K
  rollup_tier cutoff t =
      let groups = upsert_all (map to_hour (keep (older cutoff) t.minute)) [] in
      record { minute = keep (λ r. not (older cutoff r)) t.minute; hour = upsert_all groups t.hour }

  unfoldable pub add_usage : Row K → List (Usage K) → List (Usage K)
  add_usage r [] = record { key = r.key; up = r.up; down = r.down } ∷ []
  add_usage r (u ∷ us) =
      if u.key == r.key
      then record u { up = u.up + r.up; down = u.down + r.down } ∷ us
      else u ∷ add_usage r us

  unfoldable pub group_usage : List (Row K) → List (Usage K) → List (Usage K)
  group_usage [] us = us
  group_usage (r ∷ rs) us = group_usage rs (add_usage r us)

  -- The sums by key over the rows of both tiers in the window.
  unfoldable pub query_usage : ℕ → ℕ → Tier K → List (Usage K)
  query_usage from to t = group_usage (keep (in_window from to) (t.minute ++ t.hour)) []

unfoldable pub upsert_config_minute_batch : Bool → List (Row ℤ) → Repo → Repo
unfolding upsert_minute_batch
upsert_config_minute_batch failed rows r = record r {
  config = upsert_minute_batch failed rows r.config;
}

unfoldable pub upsert_app_minute_batch : Bool → List (Row String) → Repo → Repo
unfolding upsert_minute_batch
upsert_app_minute_batch failed rows r = record r { app = upsert_minute_batch failed rows r.app }

unfoldable pub rollup_minute_to_hour : Bool → ℕ → Repo → Repo
unfolding rollup_tier
rollup_minute_to_hour failed cutoff r =
    transaction failed r
      (record r { config = rollup_tier cutoff r.config; app = rollup_tier cutoff r.app })

unfoldable pub prune_hour : Bool → ℕ → Repo → Repo
unfolding prune_tier
prune_hour failed cutoff r =
    transaction failed r
      (record r { config = prune_tier cutoff r.config; app = prune_tier cutoff r.app })

-- On a conflict the first sighting stays.
unfoldable pub put_config_meta : ConfigMetaRow → List ConfigMetaRow → List ConfigMetaRow
put_config_meta m [] = m ∷ []
put_config_meta m (o ∷ os) =
    if o.profile_id == m.profile_id
    then record m { first_seen = o.first_seen } ∷ os
    else o ∷ put_config_meta m os

unfoldable pub put_app_meta : AppMetaRow → List AppMetaRow → List AppMetaRow
put_app_meta m [] = m ∷ []
put_app_meta m (o ∷ os) =
    if o.process_name == m.process_name
    then record m { first_seen = o.first_seen } ∷ os
    else o ∷ put_app_meta m os

-- Outside a transaction: a statement that throws changes nothing.
unfoldable pub upsert_config_meta : Bool → ConfigMetaRow → Repo → Repo
unfolding put_config_meta
upsert_config_meta failed m r =
    if failed then r else record r { config_meta = put_config_meta m r.config_meta }

unfoldable pub upsert_app_meta : Bool → String → String → ℕ → Repo → Repo
unfolding put_app_meta
upsert_app_meta failed process path now r = if failed then r else record r {
  app_meta =
      put_app_meta
        (record { process_name = process; last_path = path; first_seen = now; last_seen = now })
        r.app_meta;
}
