-- ===== src/Stats/Manager/History.antt =====
-- Whole histories of calls on src/stats/traffic/TrafficStatsManager.cpp. `mu` serialises the calls,
-- so a history is a list of them, each with the surroundings that it meets.
use free_link_app.Common.{
  ℕ, ℤ, ℤ_eq, String_eq, String, ◌+◌, ◌-◌, ◌*◌, ◌≡◌, ◌≤◌, refl, true, ◌||◌, List, [], ◌∷◌, arith,
  Eq, ◌==◌, All,
}
use free_link_app.Stats.Table.{Direction, total-keep}
use free_link_app.Stats.Repo.{
  Tier, older, rollup_tier, prune_tier, rollup_minute_to_hour, prune_hour,
}
use free_link_app.Stats.Repo.Totals.{total-rollup_tier, for_key}
use free_link_app.Stats.Manager.{
  Surroundings, Manager, add_config_delta, add_app_delta, flush, snapshot_config_meta,
  ensure_direct_meta, run_rollup_once, days_of, minute_window_secs, direct_stat_profile_id,
}
use free_link_app.Stats.Manager.Ledger.{held_config, held_app, stored, Healthy}
use free_link_app.Stats.Manager.Calls.{
  credit_of, config-add_config_delta, app-add_config_delta, config-add_app_delta, app-add_app_delta,
  flush-held, snapshot-held,
}

pub data Call : Type 0 where
  config_delta : ℤ → ℕ → ℕ → Call
  app_delta : String → String → ℕ → ℕ → Call
  flushes : Call
  snapshots : ℤ → String → String → String → String → Call
  direct_meta : Call
  maintains : Call

unfoldable pub step : Surroundings → Call → Manager → Manager
step w (config_delta j up down) m = add_config_delta w j up down m
step w (app_delta process path up down) m = add_app_delta w process path up down m
step w flushes m = flush w m
step w (snapshots j name group config_type address) m =
    snapshot_config_meta w j name group config_type address m
step w direct_meta m = ensure_direct_meta w m
step w maintains m = run_rollup_once w m

unfoldable pub run : List (Surroundings × Call) → Manager → Manager
unfolding step
run [] m = m
run ((w, c) ∷ cs) m = run cs (step w c m)

-- The specification: a history is the sum of the deltas that it credits to a key.
abbrev pub config_credit : Direction → ℤ → Surroundings → Call → ℕ
config_credit d k w (config_delta j up down) = credit_of d k w.disabled j up down
config_credit d k w _ = 0

abbrev pub app_credit : Direction → String → Surroundings → Call → ℕ
app_credit d k w (app_delta process path up down) =
    credit_of d k (w.disabled || process == "") process up down
app_credit d k w _ = 0

abbrev pub credited : (Surroundings → Call → ℕ) → List (Surroundings × Call) → ℕ
credited f [] = 0
credited f ((w, c) ∷ cs) = f w c + credited f cs

-- A call that meets a sound database and prunes nothing.
abbrev pub Keeping : Surroundings × Call → Type 0
Keeping (w, maintains) = w.prune_fails ≡ true
Keeping (w, _) = Healthy w

module _ {K : Type 0} ⦃e : Eq K⦄ (d : Direction) (k : K) where
  stored-rollup_tier : (cutoff : ℕ) (t : Tier K) → stored d k (rollup_tier cutoff t) ≡ stored d k t
  stored-rollup_tier cutoff t = total-rollup_tier d (for_key k) cutoff t (λ b j. refl)

  stored-prune_tier : (cutoff : ℕ) (t : Tier K) → stored d k (prune_tier cutoff t) ≤ stored d k t
  unfolding prune_tier
  stored-prune_tier cutoff t = omega (arith, total-keep d (for_key k) (older cutoff) t.hour)

abbrev KeptBooks : Surroundings → ℕ → ℕ → Type 0
KeptBooks w held due = (held ≤ due) × (w.prune_fails ≡ true → held ≡ due)

maintain-held :
    (d : Direction) (w : Surroundings) (j : ℤ) (k : String) (m : Manager)
    → KeptBooks w (held_config d j (run_rollup_once w m)) (held_config d j m)
      × KeptBooks w (held_app d k (run_rollup_once w m)) (held_app d k m)
unfolding run_rollup_once rollup_minute_to_hour prune_hour
maintain-held d w j k m =
    let c = w.now - minute_window_secs in
    let p = w.now - days_of w.retention_days * 86400 in
    (
      ground (
        arith,
        stored-rollup_tier d j c m.repo.config,
        stored-prune_tier d j p m.repo.config,
        stored-prune_tier d j p (rollup_tier c m.repo.config),
      ),
      ground (
        arith,
        stored-rollup_tier d k c m.repo.app,
        stored-prune_tier d k p m.repo.app,
        stored-prune_tier d k p (rollup_tier c m.repo.app),
      ),
    )

step-config :
    (d : Direction) (k : ℤ) (w : Surroundings) (c : Call) (m : Manager)
    → (held_config d k (step w c m) ≤ config_credit d k w c + held_config d k m)
      × (Keeping (w, c) → held_config d k (step w c m) ≡ config_credit d k w c + held_config d k m)
unfolding step ensure_direct_meta
step-config d k w (config_delta j up down) m = config-add_config_delta w m d j k up down
step-config d k w (app_delta process path up down) m =
    ground (arith, config-add_app_delta w m d process path k up down)
step-config d k w flushes m = ground (arith, flush-held w m d k "")
step-config d k w (snapshots j n g t a) m = ground (arith, snapshot-held w m d k j "" n g t a)
step-config d k w direct_meta m =
    ground (arith, snapshot-held w m d k direct_stat_profile_id "" "Direct" "" "direct" "")
step-config d k w maintains m = ground (arith, maintain-held d w k "" m)

step-app :
    (d : Direction) (k : String) (w : Surroundings) (c : Call) (m : Manager)
    → (held_app d k (step w c m) ≤ app_credit d k w c + held_app d k m)
      × (Keeping (w, c) → held_app d k (step w c m) ≡ app_credit d k w c + held_app d k m)
unfolding step ensure_direct_meta
step-app d k w (config_delta j up down) m = ground (arith, app-add_config_delta w m d j k up down)
step-app d k w (app_delta process path up down) m = app-add_app_delta w m d process path k up down
step-app d k w flushes m = ground (arith, flush-held w m d direct_stat_profile_id k)
step-app d k w (snapshots j n g t a) m = ground (arith, snapshot-held w m d j j k n g t a)
step-app d k w direct_meta m = ground (
  arith,
  snapshot-held w m d direct_stat_profile_id direct_stat_profile_id k "Direct" "" "direct" "",
)
step-app d k w maintains m = ground (arith, maintain-held d w direct_stat_profile_id k m)

-- After any history of calls that meet a sound database and prune nothing, what is held for each
-- profile and each app, in the accumulators and in both tables, is what was held before plus the
-- sum of the deltas that the history credits to it: nothing is lost or counted twice.
pub run-held :
    (d : Direction) (j : ℤ) (k : String) (cs : List (Surroundings × Call)) (m : Manager)
    → All Keeping cs
    → (held_config d j (run cs m) ≡ credited (config_credit d j) cs + held_config d j m)
      × (held_app d k (run cs m) ≡ credited (app_credit d k) cs + held_app d k m)
unfolding run
run-held d j k [] m h = (omega arith, omega arith)
run-held d j k ((w, c) ∷ cs) m h =
    let ih = run-held d j k cs (step w c m) h.1 in
    (
      omega (arith, ih.0, (step-config d j w c m).1 h.0),
      omega (arith, ih.1, (step-app d k w c m).1 h.0),
    )

-- Whatever fails and whatever is pruned, a history never makes the held bytes of a profile or an
-- app more than what was held before plus the credited deltas.
pub run-held-le :
    (d : Direction) (j : ℤ) (k : String) (cs : List (Surroundings × Call)) (m : Manager)
    → (held_config d j (run cs m) ≤ credited (config_credit d j) cs + held_config d j m)
      × (held_app d k (run cs m) ≤ credited (app_credit d k) cs + held_app d k m)
unfolding run
run-held-le d j k [] m = (omega arith, omega arith)
run-held-le d j k ((w, c) ∷ cs) m =
    let ih = run-held-le d j k cs (step w c m) in
    (omega (arith, ih.0, (step-config d j w c m).0), omega (arith, ih.1, (step-app d k w c m).0))
