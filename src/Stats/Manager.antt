-- ===== src/Stats/Manager.antt =====
-- src/stats/traffic/TrafficStatsManager.cpp: the accumulators of the current minute and their
-- flushes into the repository. A `QHash` is a list of entries with one entry to a key; a drained
-- batch stands in its order. `Surroundings` holds what one call reads from outside.
pub mod Ledger
pub mod Calls
pub mod History
pub mod Invariant
use free_link_app.Common.{
  ℕ, ℤ, pos, negsuc, is_negative, String, ◌+◌, ◌-◌, ◌*◌, ◌/◌, Bool, true, false, not, ◌&&◌, ◌||◌,
  List, [], ◌∷◌, Eq, ◌==◌, ℤ_eq, String_eq, Option, none, some, nat_eq, ltb, if◌then◌else◌,
  is_empty,
}
use free_link_app.Stats.Table.{Row}
use free_link_app.Stats.Repo.{
  Repo, ConfigMetaRow, upsert_config_minute_batch, upsert_app_minute_batch, upsert_config_meta,
  upsert_app_meta, rollup_minute_to_hour, prune_hour,
}

pub record Surroundings : Type 0 where
  -- disable_traffic_aggregation, with both managers there
  pub disabled : Bool
  -- Configs::dataManager and its trafficStatsRepo are there
  pub repo_present : Bool
  -- QDateTime::currentSecsSinceEpoch()
  pub now : ℕ
  pub retention_days : ℤ
  -- which statements of the repository throw
  pub config_fails : Bool
  pub app_fails : Bool
  pub meta_fails : Bool
  pub rollup_fails : Bool
  pub prune_fails : Bool

pub record Delta : Type 0 where
  pub up : ℕ
  pub down : ℕ

pub record Manager : Type 0 where
  pub config_accum : List (ℤ × Delta)
  pub app_accum : List (String × Delta)
  pub app_meta_seen : List (String × String)
  pub current_bucket : ℕ
  pub repo : Repo

abbrev pub direct_stat_profile_id : ℤ
direct_stat_profile_id = negsuc 100

abbrev pub minute_window_secs : ℕ
minute_window_secs = 48 * 3600

abbrev pub align_minute : ℕ → ℕ
align_minute secs = secs / 60 * 60

module _ {ℓ} {K : Type ℓ} ⦃e : Eq K⦄ where
  -- auto& d = accum[key]; d.up += up; d.down += down
  unfoldable pub add_delta : K → ℕ → ℕ → List (K × Delta) → List (K × Delta)
  add_delta k up down [] = (k, record { up = up; down = down }) ∷ []
  add_delta k up down ((j, d) ∷ m) =
      if j == k
      then (j, record { up = d.up + up; down = d.down + down }) ∷ m
      else (j, d) ∷ add_delta k up down m

module _ {ℓ} {K : Type ℓ} where
  -- One loop of drainLocked.
  unfoldable pub drain_accum : ℕ → List (K × Delta) → List (Row K)
  drain_accum bucket [] = []
  drain_accum bucket ((k, d) ∷ m) =
      if nat_eq d.up 0 && nat_eq d.down 0
      then drain_accum bucket m
      else record { bucket_start = bucket; key = k; up = d.up; down = d.down }
        ∷ drain_accum bucket m

-- The rows go to the caller and the accumulators are cleared.
unfoldable pub drain_locked : Manager → List (Row ℤ) × List (Row String) × Manager
unfolding drain_accum
drain_locked m = (
  drain_accum m.current_bucket m.config_accum,
  drain_accum m.current_bucket m.app_accum,
  record m { config_accum = []; app_accum = [] },
)

unfoldable pub write_rows : Surroundings → List (Row ℤ) → List (Row String) → Manager → Manager
write_rows w cfg app m =
    if w.repo_present
    then record m {
      repo =
          upsert_app_minute_batch w.app_fails app
            (upsert_config_minute_batch w.config_fails cfg m.repo);
    }
    else m

-- if (currentBucket != 0 && nowBucket != currentBucket) drainLocked(…); currentBucket = nowBucket
unfoldable pub roll_bucket : ℕ → Manager → List (Row ℤ) × List (Row String) × Manager
roll_bucket bucket m =
    let (cfg, app, drained) = drain_locked m in
    if not (nat_eq m.current_bucket 0) && not (nat_eq bucket m.current_bucket)
    then (cfg, app, record drained { current_bucket = bucket })
    else ([], [], record m { current_bucket = bucket })

abbrev pub is_zero : ℕ → ℕ → Bool
is_zero up down = nat_eq up 0 && nat_eq down 0

unfoldable pub add_config_delta : Surroundings → ℤ → ℕ → ℕ → Manager → Manager
add_config_delta w profile up down m =
    if w.disabled
    then m
    else if is_zero up down
    then m
    else let (cfg, app, rolled) = roll_bucket (align_minute w.now) m in
      write_rows w cfg app
        (record rolled { config_accum = add_delta profile up down rolled.config_accum })

-- appMetaSeen.constFind(processName)
unfoldable pub seen_path : String → List (String × String) → Option String
seen_path k [] = none
seen_path k ((j, p) ∷ m) = if j == k then some p else seen_path k m

unfoldable pub insert_path : String → String → List (String × String) → List (String × String)
insert_path k p [] = (k, p) ∷ []
insert_path k p ((j, q) ∷ m) = if j == k then (k, p) ∷ m else (j, q) ∷ insert_path k p m

-- if (it == appMetaSeen.constEnd() || it.value() != path)
abbrev is_stale : String → Option String → Bool
is_stale path none = true
is_stale path (some p) = not (p == path)

unfoldable pub needs_meta : String → String → Manager → Bool
unfolding seen_path
needs_meta process path m = not (path == "") && is_stale path (seen_path process m.app_meta_seen)

unfoldable pub write_app_meta : Surroundings → String → String → Bool → Manager → Manager
write_app_meta w process path write m =
    if write && w.repo_present
    then record m { repo = upsert_app_meta w.meta_fails process path w.now m.repo }
    else m

unfoldable pub add_app_delta : Surroundings → String → String → ℕ → ℕ → Manager → Manager
add_app_delta w process path up down m =
    if w.disabled
    then m
    else if process == "" || is_zero up down
    then m
    else let (cfg, app, rolled) = roll_bucket (align_minute w.now) m in
      let fresh = needs_meta process path m in
      write_app_meta w process path fresh (
        write_rows w cfg app (record rolled {
          app_accum = add_delta process up down rolled.app_accum;
          app_meta_seen =
              if fresh then insert_path process path rolled.app_meta_seen else rolled.app_meta_seen;
        }))

unfoldable pub flush : Surroundings → Manager → Manager
flush w m =
    if w.disabled
    then m
    else if nat_eq m.current_bucket 0
    then m
    else let (cfg, app, drained) = drain_locked m in write_rows w cfg app drained

unfoldable pub snapshot_config_meta :
    Surroundings → ℤ → String → String → String → String → Manager → Manager
snapshot_config_meta w profile name group config_type address m =
    if w.disabled
    then m
    else if not w.repo_present
    then m
    else if is_negative profile && not (profile == direct_stat_profile_id)
    then m
    else record m {
      repo =
          upsert_config_meta w.meta_fails
            (record {
              profile_id = profile;
              name = name;
              group_name = group;
              config_type = config_type;
              server_address = address;
              first_seen = w.now;
              last_seen = w.now;
            })
            m.repo;
    }

unfoldable pub ensure_direct_meta : Surroundings → Manager → Manager
ensure_direct_meta w = snapshot_config_meta w direct_stat_profile_id "Direct" "" "direct" ""

-- if (days < 1) days = 1
abbrev pub days_of : ℤ → ℕ
days_of (pos n) = if ltb n 1 then 1 else n
days_of (negsuc n) = 1

-- A cutoff before the epoch takes no row, as the cutoff 0 does.
unfoldable pub run_rollup_once : Surroundings → Manager → Manager
run_rollup_once w m =
    if w.disabled
    then m
    else if not w.repo_present
    then m
    else let rolled = rollup_minute_to_hour w.rollup_fails (w.now - minute_window_secs) m.repo in
      record m { repo = prune_hour w.prune_fails (w.now - days_of w.retention_days * 86400) rolled }
