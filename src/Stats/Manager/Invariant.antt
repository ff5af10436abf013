-- ===== src/Stats/Manager/Invariant.antt =====
-- What every call on src/stats/traffic/TrafficStatsManager.cpp keeps true of its state.
use free_link_app.Common.{
  ℕ, ℤ, ℤ_eq, String_eq, String, ◌*◌, ◌/◌, ◌≡◌, Bool, not, ◌&&◌, List, [], ◌∷◌, arith, ◌==◌, All,
  nat_eq, ◌||◌, if_rule, ◌-◌,
}
use free_link_app.Stats.Table.{Row}
use free_link_app.Stats.Repo.{upsert_config_meta, upsert_app_meta}
use free_link_app.Stats.Repo.Keys.{
  Aligned, RepoValid, batches-RepoValid, rollup_minute_to_hour-RepoValid, prune_hour-RepoValid,
}
use free_link_app.Stats.Manager.{
  Surroundings, Delta, Manager, align_minute, drain_accum, drain_locked, roll_bucket, write_rows,
  write_app_meta, add_config_delta, add_app_delta, flush, snapshot_config_meta, ensure_direct_meta,
  run_rollup_once, is_zero, needs_meta, days_of, minute_window_secs, direct_stat_profile_id,
}
use free_link_app.Stats.Manager.History.{
  Call, config_delta, app_delta, flushes, snapshots, direct_meta, maintains, step, run,
}

-- The current bucket starts a minute, and the tables have unique keys and aligned rows.
pub record IsValid (m : Manager) : Type 0 where
  pub bucket : align_minute m.current_bucket ≡ m.current_bucket
  pub repo : RepoValid m.repo

drain_accum-Aligned :
    {K : Type 0} (bucket : ℕ) (m : List (K × Delta))
    → align_minute bucket ≡ bucket
    → All (λ (r : Row K). r.bucket_start / 60 * 60 ≡ r.bucket_start) (drain_accum bucket m)
unfolding drain_accum
drain_accum-Aligned bucket [] h = tt
drain_accum-Aligned bucket ((k, d) ∷ m) h = ground (arith, drain_accum-Aligned bucket m h)

bucket-write_rows :
    (w : Surroundings) (cfg : List (Row ℤ)) (app : List (Row String)) (m : Manager)
    → (write_rows w cfg app m).current_bucket ≡ m.current_bucket
unfolding write_rows
bucket-write_rows w cfg app m = ground arith

write_rows-RepoValid :
    (w : Surroundings) (cfg : List (Row ℤ)) (app : List (Row String)) (m : Manager)
    → Aligned 60 cfg
    → Aligned 60 app
    → RepoValid m.repo
    → RepoValid (write_rows w cfg app m).repo
unfolding write_rows
write_rows-RepoValid w cfg app m a b v =
    if_rule (λ (n : Manager). RepoValid n.repo) w.repo_present _ m
      (batches-RepoValid w.config_fails w.app_fails cfg app m.repo a b v) v

write_rows-IsValid :
    (w : Surroundings) (cfg : List (Row ℤ)) (app : List (Row String)) (m : Manager)
    → Aligned 60 cfg
    → Aligned 60 app
    → IsValid m
    → IsValid (write_rows w cfg app m)
write_rows-IsValid w cfg app m a b v = record {
  bucket = rw (bucket-write_rows w cfg app m) v.bucket;
  repo = write_rows-RepoValid w cfg app m a b v.repo;
}

-- The rows that a change of minute drains, and the manager that is left.
roll_bucket-IsValid :
    (now : ℕ) (m : Manager)
    → IsValid m
    → Aligned 60 (roll_bucket (align_minute now) m).0
      × Aligned 60 (roll_bucket (align_minute now) m).1
      × IsValid (roll_bucket (align_minute now) m).2
unfolding roll_bucket drain_locked
roll_bucket-IsValid now m v =
    if_rule
      (λ (t : List (Row ℤ) × List (Row String) × Manager).
        Aligned 60 t.0 × Aligned 60 t.1 × IsValid t.2)
      (not (nat_eq m.current_bucket 0) && not (nat_eq (align_minute now) m.current_bucket)) _ _
      (
        drain_accum-Aligned m.current_bucket m.config_accum v.bucket,
        drain_accum-Aligned m.current_bucket m.app_accum v.bucket,
        record { bucket = omega arith; repo = v.repo },
      )
      (tt, tt, record { bucket = omega arith; repo = v.repo })

-- A call that only changes the metadata, or whose guard stops it, keeps the state valid.
same-IsValid :
    (m n : Manager)
    → IsValid m
    → n.current_bucket ≡ m.current_bucket
    → n.repo.config ≡ m.repo.config
    → n.repo.app ≡ m.repo.app
    → IsValid n
same-IsValid m n v b c a = record {
  bucket = rw b v.bucket;
  repo = record { config = rw c v.repo.config; app = rw a v.repo.app };
}

write_app_meta-IsValid :
    (w : Surroundings) (process path : String) (write : Bool) (m : Manager)
    → IsValid m
    → IsValid (write_app_meta w process path write m)
unfolding write_app_meta upsert_app_meta
write_app_meta-IsValid w process path write m v =
    same-IsValid m (write_app_meta w process path write m) v (ground arith) (ground arith)
      (ground arith)

snapshot-IsValid :
    (w : Surroundings) (j : ℤ) (name group config_type address : String) (m : Manager)
    → IsValid m
    → IsValid (snapshot_config_meta w j name group config_type address m)
unfolding snapshot_config_meta upsert_config_meta
snapshot-IsValid w j name group config_type address m v =
    same-IsValid m (snapshot_config_meta w j name group config_type address m) v (ground arith)
      (ground arith) (ground arith)

add_config_delta-IsValid :
    (w : Surroundings) (j : ℤ) (up down : ℕ) (m : Manager)
    → IsValid m
    → IsValid (add_config_delta w j up down m)
unfolding add_config_delta
add_config_delta-IsValid w j up down m v =
    let r = roll_bucket-IsValid w.now m v in
    if_rule IsValid w.disabled m _ v (
      if_rule IsValid (is_zero up down) m _ v
        (write_rows-IsValid w _ _ _ r.0 r.1 (record { bucket = r.2.bucket; repo = r.2.repo })))

add_app_delta-IsValid :
    (w : Surroundings) (process path : String) (up down : ℕ) (m : Manager)
    → IsValid m
    → IsValid (add_app_delta w process path up down m)
unfolding add_app_delta
add_app_delta-IsValid w process path up down m v =
    let r = roll_bucket-IsValid w.now m v in
    if_rule IsValid w.disabled m _ v (
      if_rule IsValid (process == "" || is_zero up down) m _ v (
        write_app_meta-IsValid w process path (needs_meta process path m) _
          (write_rows-IsValid w _ _ _ r.0 r.1 (record { bucket = r.2.bucket; repo = r.2.repo }))))

flush-IsValid : (w : Surroundings) (m : Manager) → IsValid m → IsValid (flush w m)
unfolding flush drain_locked
flush-IsValid w m v = if_rule IsValid w.disabled m _ v (
    if_rule IsValid (nat_eq m.current_bucket 0) m _ v (
      write_rows-IsValid w _ _ _ (drain_accum-Aligned m.current_bucket m.config_accum v.bucket)
        (drain_accum-Aligned m.current_bucket m.app_accum v.bucket)
        (record { bucket = v.bucket; repo = v.repo })))

maintain-IsValid : (w : Surroundings) (m : Manager) → IsValid m → IsValid (run_rollup_once w m)
unfolding run_rollup_once
maintain-IsValid w m v = if_rule IsValid w.disabled m _ v (
    if_rule IsValid (not w.repo_present) m _ v (record {
      bucket = v.bucket;
      repo = prune_hour-RepoValid w.prune_fails (w.now - days_of w.retention_days * 86400) _ (
          rollup_minute_to_hour-RepoValid w.rollup_fails (w.now - minute_window_secs) m.repo
            v.repo);
    }))

pub step-IsValid : (w : Surroundings) (c : Call) (m : Manager) → IsValid m → IsValid (step w c m)
unfolding step ensure_direct_meta
step-IsValid w (config_delta j up down) m v = add_config_delta-IsValid w j up down m v
step-IsValid w (app_delta process path up down) m v =
    add_app_delta-IsValid w process path up down m v
step-IsValid w flushes m v = flush-IsValid w m v
step-IsValid w (snapshots j n g t a) m v = snapshot-IsValid w j n g t a m v
step-IsValid w direct_meta m v =
    snapshot-IsValid w direct_stat_profile_id "Direct" "" "direct" "" m v
step-IsValid w maintains m v = maintain-IsValid w m v

-- After any history of calls, whatever fails in it, the current bucket still starts a minute, no
-- table has two rows under one primary key, minute rows start at a minute and hour rows at an hour.
pub run-IsValid : (cs : List (Surroundings × Call)) (m : Manager) → IsValid m → IsValid (run cs m)
unfolding run
run-IsValid [] m v = v
run-IsValid ((w, c) ∷ cs) m v = run-IsValid cs (step w c m) (step-IsValid w c m v)
