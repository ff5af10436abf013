-- ===== src/Stats/Manager/Calls.antt =====
-- What each call on src/stats/traffic/TrafficStatsManager.cpp does to the books, with the
-- surroundings that it meets.
use free_link_app.Common.{
  ℕ, ℤ, pos, ℤ_eq, String_eq, String, ◌+◌, ◌≡◌, ◌≤◌, Bool, true, List, [], arith, Eq, ◌==◌,
  if◌then◌else◌, ◌||◌,
}
use free_link_app.Stats.Table.{Row, Direction, upload, download, pick}
use free_link_app.Stats.Repo.{upsert_app_meta, upsert_config_meta}
use free_link_app.Stats.Manager.{
  Delta, is_zero, needs_meta, insert_path, drain_accum, Surroundings, Manager, add_config_delta,
  add_app_delta, write_app_meta, flush, drain_locked, snapshot_config_meta, roll_bucket, write_rows,
  add_delta, align_minute,
}
use free_link_app.Stats.Manager.Ledger.{
  held_config, held_app, pending, pending-add_delta, Healthy, config-write_rows, app-write_rows,
  config-roll_bucket, app-roll_bucket, total-drain_accum,
}

-- What a call credits to a key: the delta that it brings, unless aggregation is off.
abbrev pub credit_of {ℓ} : {K : Type ℓ} ⦃e : Eq K⦄ → Direction → K → Bool → K → ℕ → ℕ → ℕ
credit_of d k disabled j up down = if disabled then 0 else if j == k then pick d up down else 0

-- Never more than the books say, and exactly that where the database is there and sound.
abbrev pub Booked : Surroundings → ℕ → ℕ → Type 0
Booked w held due = (held ≤ due) × (Healthy w → held ≡ due)

module _ (d : Direction) (w : Surroundings) (m : Manager) where
  abbrev rolled : List (Row ℤ) × List (Row String) × Manager
  rolled = roll_bucket (align_minute w.now) m

  config-roll-write :
      (k : ℤ) (accum : List (ℤ × Delta)) (more : ℕ) (app : List (String × Delta))
      (seen : List (String × String))
      → pending d k accum ≡ more + pending d k rolled.2.config_accum
      → Booked w
          (held_config d k (
            write_rows w rolled.0 rolled.1
              (record rolled.2 { config_accum = accum; app_accum = app; app_meta_seen = seen })))
          (more + held_config d k m)
  config-roll-write k accum more app seen h =
      let facts =
        config-write_rows d w rolled.0 rolled.1
          (record rolled.2 { config_accum = accum; app_accum = app; app_meta_seen = seen }) k in
      (
        ground (arith, facts, config-roll_bucket d (align_minute w.now) m k),
        λ sound. ground (arith, facts, config-roll_bucket d (align_minute w.now) m k),
      )

  app-roll-write :
      (k : String) (accum : List (String × Delta)) (more : ℕ) (cfg : List (ℤ × Delta))
      (seen : List (String × String))
      → pending d k accum ≡ more + pending d k rolled.2.app_accum
      → Booked w
          (held_app d k (
            write_rows w rolled.0 rolled.1
              (record rolled.2 { app_accum = accum; config_accum = cfg; app_meta_seen = seen })))
          (more + held_app d k m)
  app-roll-write k accum more cfg seen h =
      let facts =
        app-write_rows d w rolled.0 rolled.1
          (record rolled.2 { app_accum = accum; config_accum = cfg; app_meta_seen = seen }) k in
      (
        ground (arith, facts, app-roll_bucket d (align_minute w.now) m k),
        λ sound. ground (arith, facts, app-roll_bucket d (align_minute w.now) m k),
      )

write_app_meta-held :
    (w : Surroundings) (m : Manager) (d : Direction) (j : ℤ) (k p path : String) (write : Bool)
    → (held_config d j (write_app_meta w p path write m) ≡ held_config d j m)
      × (held_app d k (write_app_meta w p path write m) ≡ held_app d k m)
unfolding write_app_meta upsert_app_meta
write_app_meta-held w m d j k p path write = (ground arith, ground arith)

module _ (w : Surroundings) (m : Manager) where
  -- The guard of both delta calls: an empty delta, or aggregation turned off, credits nothing.
  guarded :
      {K : Type 0} ⦃e : Eq K⦄ (f : Manager → ℕ) (d : Direction) (skip : Bool) (j k : K)
      (up down : ℕ) (done : Manager)
      → (skip ≡ true → (up ≡ 0) × (down ≡ 0))
      → Booked w (f done) ((if j == k then pick d up down else 0) + f m)
      → Booked w
          (f (if w.disabled then m else if skip then m else done))
          (credit_of d k w.disabled j up down + f m)
  guarded f upload skip j k up down done z b =
      (ground (arith, z, b.0), λ sound. ground (arith, z, b.1 sound))
  guarded f download skip j k up down done z b =
      (ground (arith, z, b.0), λ sound. ground (arith, z, b.1 sound))

  pub config-add_config_delta :
      (d : Direction) (j k : ℤ) (up down : ℕ)
      → Booked w
          (held_config d k (add_config_delta w j up down m))
          (credit_of d k w.disabled j up down + held_config d k m)
  unfolding add_config_delta
  config-add_config_delta d j k up down =
      let r = rolled d w m in
      guarded (held_config d k) d (is_zero up down) j k up down _
        (λ z. (ground arith, ground arith))
        (config-roll-write d w m k (add_delta j up down r.2.config_accum)
          (if j == k then pick d up down else 0) r.2.app_accum r.2.app_meta_seen
          (pending-add_delta d k j up down r.2.config_accum))

  pub app-add_config_delta :
      (d : Direction) (j : ℤ) (k : String) (up down : ℕ)
      → Booked w (held_app d k (add_config_delta w j up down m)) (held_app d k m)
  unfolding add_config_delta
  app-add_config_delta d j k up down =
      let r = rolled d w m in
      let b =
        app-roll-write d w m k r.2.app_accum 0 (add_delta j up down r.2.config_accum)
          r.2.app_meta_seen (omega arith) in
      (ground (arith, b.0), λ sound. ground (arith, b.1 sound))

  -- The guard of the app call.
  app_guarded :
      (d : Direction) (process k : String) (up down : ℕ) (done : Manager)
      → Booked w (held_app d k done) ((if process == k then pick d up down else 0) + held_app d k m)
      → Booked w
          (held_app d k
            (if w.disabled then m else if process == "" || is_zero up down then m else done))
          (credit_of d k (w.disabled || process == "") process up down + held_app d k m)
  app_guarded upload process k up down done b =
      (ground (arith, b.0), λ sound. ground (arith, b.1 sound))
  app_guarded download process k up down done b =
      (ground (arith, b.0), λ sound. ground (arith, b.1 sound))

  pub config-add_app_delta :
      (d : Direction) (process path : String) (k : ℤ) (up down : ℕ)
      → Booked w (held_config d k (add_app_delta w process path up down m)) (held_config d k m)
  unfolding add_app_delta
  config-add_app_delta d process path k up down =
      let r = rolled d w m in
      let fresh = needs_meta process path m in
      let seen = if fresh then insert_path process path r.2.app_meta_seen else r.2.app_meta_seen in
      let wrote = write_rows w r.0 r.1 (record r.2 {
        app_accum = add_delta process up down r.2.app_accum;
        app_meta_seen = seen;
      }) in
      let b =
        config-roll-write d w m k r.2.config_accum 0 (add_delta process up down r.2.app_accum) seen
          (omega arith) in
      ground (arith, b.0, b.1, write_app_meta-held w wrote d k process process path fresh)

  pub app-add_app_delta :
      (d : Direction) (process path k : String) (up down : ℕ)
      → Booked w
          (held_app d k (add_app_delta w process path up down m))
          (credit_of d k (w.disabled || process == "") process up down + held_app d k m)
  unfolding add_app_delta
  app-add_app_delta d process path k up down =
      let r = rolled d w m in
      let fresh = needs_meta process path m in
      let seen = if fresh then insert_path process path r.2.app_meta_seen else r.2.app_meta_seen in
      let wrote = write_rows w r.0 r.1 (record r.2 {
        app_accum = add_delta process up down r.2.app_accum;
        app_meta_seen = seen;
      }) in
      let b =
        app-roll-write d w m k (add_delta process up down r.2.app_accum)
          (if process == k then pick d up down else 0) r.2.config_accum seen
          (pending-add_delta d k process up down r.2.app_accum) in
      let same = (write_app_meta-held w wrote d (pos 0) k process path fresh).1 in
      app_guarded d process k up down (write_app_meta w process path fresh wrote)
        (rw same (b.0), λ sound. rw same (b.1 sound))

  pub flush-held :
      (d : Direction) (j : ℤ) (k : String)
      → Booked w (held_config d j (flush w m)) (held_config d j m)
        × Booked w (held_app d k (flush w m)) (held_app d k m)
  unfolding flush drain_locked
  flush-held d j k = (
    ground (
      arith,
      config-write_rows d w (drain_accum m.current_bucket m.config_accum)
          (drain_accum m.current_bucket m.app_accum)
          (record m { config_accum = []; app_accum = [] }) j,
      total-drain_accum d j m.current_bucket m.config_accum,
    ),
    ground (
      arith,
      app-write_rows d w (drain_accum m.current_bucket m.config_accum)
          (drain_accum m.current_bucket m.app_accum)
          (record m { config_accum = []; app_accum = [] }) k,
      total-drain_accum d k m.current_bucket m.app_accum,
    ),
  )

  pub snapshot-held :
      (d : Direction) (j p : ℤ) (k name group config_type address : String)
      → (held_config d j (snapshot_config_meta w p name group config_type address m)
          ≡ held_config d j m)
        × (held_app d k (snapshot_config_meta w p name group config_type address m)
            ≡ held_app d k m)
  unfolding snapshot_config_meta upsert_config_meta
  snapshot-held d j p k name group config_type address = (ground arith, ground arith)
