-- ===== src/Stats/Looper/Mirror.antt =====
-- The statistics mirror the counters of the profiles (src/stats/traffic/TrafficLooper.cpp).
use free_link_app.Common.{
  ℕ, ℤ, ℤ_eq, String, ◌+◌, ◌-◌, ◌≡◌, refl, Bool, false, Option, none, some, List, [], ◌∷◌, ◌==◌,
  arith, nat_eq, if_rule,
}
use free_link_app.Stats.Table.{Direction}
use free_link_app.Stats.Manager.{
  Delta, Surroundings, direct_stat_profile_id, add_config_delta, add_delta,
}
use free_link_app.Stats.Manager.Ledger.{held_config, pending, pending-add_delta, Healthy}
use free_link_app.Stats.Manager.Calls.{config-add_config_delta}
use free_link_app.Stats.Connections.{find}
use free_link_app.Stats.Looper.{
  Rates, LooperGroup, Counters, Looper, credit_profiles, update_group, update_groups, update_direct,
  update_all,
}

-- The books of a profile grow by exactly what its own counter grows by.
abbrev pub Mirrors : Direction → ℤ → Counters → Counters → Type 0
Mirrors d k before after =
    held_config d k after.manager + pending d k before.legacy
    ≡ held_config d k before.manager + pending d k after.legacy

Mirrors-trans :
    (d : Direction) (k : ℤ) (a b c : Counters) → Mirrors d k a b → Mirrors d k b c → Mirrors d k a c
Mirrors-trans d k a b c h i = omega (arith, h, i)

module _ (d : Direction) (k : ℤ) (w : Surroundings) (sound : Healthy w)
    (on : w.disabled ≡ false) where
  credit_profiles-Mirrors :
      (up down : ℕ) (ids : List ℤ) (c : Counters) → Mirrors d k c (credit_profiles w up down ids c)
  unfolding credit_profiles
  credit_profiles-Mirrors up down [] c = refl
  credit_profiles-Mirrors up down (id ∷ ids) c =
      let first : Counters = record {
        legacy = add_delta id up down c.legacy;
        manager = add_config_delta w id up down c.manager;
      } in
      Mirrors-trans d k c first (credit_profiles w up down ids first)
        (ground (
          arith,
          (config-add_config_delta w c.manager d id k up down).1 sound,
          on,
          pending-add_delta d k id up down c.legacy,
        ))
        (credit_profiles-Mirrors up down ids first)

  module _ {R : Type 0} (rates : Rates R) (now : ℕ) where
    update_group-Mirrors :
        (o : Option Delta) (g : LooperGroup R) (l : Looper R)
        → Mirrors d k l.counters (update_group rates w now o g l).1.counters
    unfolding update_group
    update_group-Mirrors none g l = refl
    update_group-Mirrors (some x) g l =
        if_rule (λ (s : LooperGroup R × Looper R). Mirrors d k l.counters s.1.counters)
          (nat_eq (now - g.last_update) 0) _ _ refl
          (credit_profiles-Mirrors x.up x.down g.profiles l.counters)

    update_groups-Mirrors :
        (counts : List (String × Delta)) (gs : List (LooperGroup R)) (l : Looper R)
        → Mirrors d k l.counters (update_groups rates w now counts gs l).1.counters
    unfolding update_groups
    update_groups-Mirrors counts [] l = refl
    update_groups-Mirrors counts (g ∷ gs) l =
        let one = (update_group rates w now (find g.watch_tag counts) g l).1 in
        Mirrors-trans d k l.counters one.counters
          (update_groups rates w now counts gs one).1.counters
          (update_group-Mirrors (find g.watch_tag counts) g l) (update_groups-Mirrors counts gs one)

    update_direct-Mirrors :
        (o : Option Delta) (l : Looper R)
        → (direct_stat_profile_id == k) ≡ false
        → Mirrors d k l.counters (update_direct rates w now o l).counters
    unfolding update_direct
    update_direct-Mirrors none l h = refl
    update_direct-Mirrors (some x) l h =
        if_rule (λ (s : Looper R). Mirrors d k l.counters s.counters)
          (nat_eq (now - l.direct_last_update) 0) _ _ refl
          (ground (
            arith,
            h,
            on,
            (config-add_config_delta w l.counters.manager d direct_stat_profile_id k x.up x.down).1
                sound,
          ))

-- Where the database is there and sound and aggregation is on, a tick adds to the statistics of every
-- profile exactly what it adds to the profile's own counter, in both directions.
pub update_all-Mirrors :
    {R : Type 0} (rates : Rates R) (d : Direction) (k : ℤ) (w : Surroundings) (now : ℕ)
    (disabled : Bool) (counts : List (String × Delta)) (l : Looper R)
    → Healthy w
    → w.disabled ≡ false
    → (direct_stat_profile_id == k) ≡ false
    → Mirrors d k l.counters (update_all rates w now disabled counts l).counters
unfolding update_all
update_all-Mirrors rates d k w now disabled counts l sound on h =
    let reset = record l { proxy_up = rates.zero_rate; proxy_down = rates.zero_rate } in
    let done = update_groups rates w now counts l.groups reset in
    let grouped = record (done.1) { groups = done.0 } in
    if_rule (λ (s : Looper _). Mirrors d k l.counters s.counters) disabled _ _ refl
      (Mirrors-trans d k l.counters grouped.counters
        (update_direct rates w now (find "direct" counts) grouped).counters
        (update_groups-Mirrors d k w sound on rates now counts l.groups reset)
        (update_direct-Mirrors d k w sound on rates now (find "direct" counts) grouped h))
