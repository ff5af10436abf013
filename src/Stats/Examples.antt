-- ===== src/Stats/Examples.antt =====
-- Runs of the statistics (src/stats/traffic, src/database/TrafficStatsRepo.cpp) on small inputs.
use free_link_app.Common.{
  ◌≤◌, ℕ, pos, ℤ_eq, String_eq, ◌≡◌, refl, true, false, List, [], ◌∷◌, arith, inr,
}
use free_link_app.Stats.Table.{upload, upsert, upsert_all}
use free_link_app.Stats.Repo.{
  Repo, created, rollup_minute_to_hour, prune_hour, upsert_config_minute_batch,
  upsert_app_minute_batch, rollup_tier, upsert_app_meta,
}
use free_link_app.Stats.Repo.Totals.{SameUsage, usage-rollup_minute_to_hour, usage-prune_hour}
use free_link_app.Stats.Repo.Keys.{created-RepoValid}
use free_link_app.Stats.Manager.{
  Surroundings, Manager, add_config_delta, add_app_delta, roll_bucket, drain_locked, write_rows,
  add_delta, needs_meta, insert_path, write_app_meta, flush,
}
use free_link_app.Stats.Manager.Ledger.{held_config, held_app, Healthy, flush_failed}
use free_link_app.Stats.Manager.History.{
  Call, config_delta, app_delta, flushes, maintains, run, run-held, run-held-le,
}
use free_link_app.Stats.Manager.Invariant.{IsValid, run-IsValid}

abbrev calm : ℕ → Surroundings
calm now = record {
  disabled = false;
  repo_present = true;
  now = now;
  retention_days = pos 30;
  config_fails = false;
  app_fails = false;
  meta_fails = false;
  rollup_fails = false;
  prune_fails = false;
}

abbrev broken : ℕ → Surroundings
broken now = record (calm now) { config_fails = true; app_fails = true }

abbrev idle : Manager
idle = record {
  config_accum = [];
  app_accum = [];
  app_meta_seen = [];
  current_bucket = 0;
  repo = created;
}

-- Two deltas in one minute, one in the next, and a flush.
abbrev session : List (Surroundings × Call)
session =
    (calm 120, config_delta (pos 7) 10 20)
    ∷ (calm 150, config_delta (pos 7) 5 0)
    ∷ (calm 180, app_delta "firefox" "/bin/firefox" 3 4)
    ∷ (calm 200, flushes)
    ∷ []

session_rows :
    (run session idle).repo.config.minute
    ≡ record { bucket_start = 120; key = pos 7; up = 15; down = 20 } ∷ []
unfolding run add_config_delta add_app_delta roll_bucket drain_locked write_rows add_delta flush
    needs_meta insert_path write_app_meta upsert_config_minute_batch upsert_app_minute_batch upsert
    upsert_all upsert_app_meta
session_rows = refl

calm-Healthy : (now : ℕ) → Healthy (calm now)
calm-Healthy now = record { present = refl; config_ok = refl; app_ok = refl }

run-held_example :
    (held_config upload (pos 7) (run session idle) ≡ 15)
    × (held_app upload "firefox" (run session idle) ≡ 3)
run-held_example =
    run-held upload (pos 7) "firefox" session idle
      (calm-Healthy 120, (calm-Healthy 150, (calm-Healthy 180, (calm-Healthy 200, tt))))

-- The flush meets a database that refuses its batches, and the maintenance prunes.
abbrev rough : List (Surroundings × Call)
rough =
    (calm 120, config_delta (pos 7) 10 20) ∷ (broken 200, flushes) ∷ (calm 9000000, maintains) ∷ []

run-held-le_example :
    (held_config upload (pos 7) (run rough idle) ≤ 10)
    × (held_app upload "firefox" (run rough idle) ≤ 0)
run-held-le_example = run-held-le upload (pos 7) "firefox" rough idle

idle-IsValid : IsValid idle
idle-IsValid = record { bucket = refl; repo = created-RepoValid }

run-IsValid_example : IsValid (run rough idle)
run-IsValid_example = run-IsValid rough idle idle-IsValid

abbrev pending_minute : Manager
pending_minute = record idle {
  config_accum = (pos 7, record { up = 10; down = 20 }) ∷ [];
  current_bucket = 120;
}

flush_failed_example :
    ((flush (broken 200) pending_minute).config_accum ≡ [])
    × ((flush (broken 200) pending_minute).app_accum ≡ [])
    × ((flush (broken 200) pending_minute).repo ≡ pending_minute.repo)
flush_failed_example =
    flush_failed (broken 200) pending_minute refl (omega arith) (inr (refl, refl))

-- Two minutes of one hour, for one profile.
abbrev two_minutes : Repo
two_minutes = record created {
  config = record {
    minute =
        record { bucket_start = 7200; key = pos 7; up = 15; down = 20 }
        ∷ record { bucket_start = 7260; key = pos 7; up = 1; down = 2 }
        ∷ [];
    hour = [];
  };
}

rolled_hour :
    (rollup_minute_to_hour false 9000 two_minutes).config.hour
    ≡ record { bucket_start = 7200; key = pos 7; up = 16; down = 22 } ∷ []
unfolding rollup_minute_to_hour rollup_tier upsert upsert_all
rolled_hour = refl

usage-rollup_minute_to_hour_example :
    SameUsage upload 7200 10800 (rollup_minute_to_hour false 9000 two_minutes) two_minutes
usage-rollup_minute_to_hour_example = usage-rollup_minute_to_hour upload 2 3 9000 false two_minutes

usage-prune_hour_example :
    SameUsage upload 7200 10800 (prune_hour false 7200 two_minutes) two_minutes
usage-prune_hour_example = usage-prune_hour upload 7200 10800 7200 false two_minutes (omega arith)
