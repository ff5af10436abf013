-- ===== src/Stats/Looper.antt =====
-- src/stats/traffic/TrafficLooper.cpp: the tick that credits what the core has counted to the profiles
-- of the chains, in their own counters and in the statistics. `R` is the type of the rates (`double`).
pub mod Mirror
pub mod Due
use free_link_app.Common.{
  ℕ, ℤ, ℤ_eq, String, String_eq, ◌-◌, ◌≡◌, Bool, true, false, Option, none, some, List, [], ◌∷◌,
  ◌++◌, if◌then◌else◌, nat_eq, not, keep, is_negative, map,
}
use free_link_app.Stats.Manager.{
  Delta, Surroundings, Manager, direct_stat_profile_id, add_delta, add_config_delta,
}
use free_link_app.Stats.Connections.{find}

-- The arithmetic of the rates: 0, + and bytes * 1000.0 / milliseconds.
pub record Rates (R : Type 0) : Type 0 where
  pub zero_rate : R
  pub plus : R → R → R
  pub per_second : ℕ → ℕ → R

-- TrafficLooperGroup, with its profiles by their ids.
pub record LooperGroup (R : Type 0) : Type 0 where
  pub watch_tag : String
  pub profiles : List ℤ
  pub last_update : ℕ
  pub uplink_rate : R
  pub downlink_rate : R

-- The counters that the loop writes: traffic_uplink and traffic_downlink of the profiles, which the
-- groups share, and the statistics.
pub record Counters : Type 0 where
  pub legacy : List (ℤ × Delta)
  pub manager : Manager

-- TrafficLooper, with the rates of its entries `proxy` and `direct`.
pub record Looper (R : Type 0) : Type 0 where
  pub groups : List (LooperGroup R)
  pub direct_last_update : ℕ
  pub proxy_up : R
  pub proxy_down : R
  pub direct_up : R
  pub direct_down : R
  pub counters : Counters

-- The loop over group.profiles.
unfoldable pub credit_profiles : Surroundings → ℕ → ℕ → List ℤ → Counters → Counters
credit_profiles w up down [] c = c
credit_profiles w up down (id ∷ ids) c = credit_profiles w up down ids (record {
  legacy = add_delta id up down c.legacy;
  manager = add_config_delta w id up down c.manager;
})

module _ {R : Type 0} (rates : Rates R) (w : Surroundings) (now : ℕ) where
  -- The body of the loop over the groups, for the counts of the group's tag.
  unfoldable pub update_group : Option Delta → LooperGroup R → Looper R → LooperGroup R × Looper R
  update_group none g l = (g, l)
  update_group (some d) g l =
      let interval = now - g.last_update in
      let timed = record g { last_update = now } in
      if nat_eq interval 0
      then (timed, l)
      else let up_rate = rates.per_second d.up interval in
        let down_rate = rates.per_second d.down interval in
        (
          record timed { uplink_rate = up_rate; downlink_rate = down_rate },
          record l {
            counters = credit_profiles w d.up d.down g.profiles l.counters;
            proxy_up = rates.plus l.proxy_up up_rate;
            proxy_down = rates.plus l.proxy_down down_rate;
          },
        )

  -- The loop over the groups: the groups as they are left, and the rest of the state.
  unfoldable pub update_groups :
      List (String × Delta) → List (LooperGroup R) → Looper R → List (LooperGroup R) × Looper R
  update_groups counts [] l = ([], l)
  update_groups counts (g ∷ gs) l =
      let one = update_group (find g.watch_tag counts) g l in
      let rest = update_groups counts gs one.1 in (one.0 ∷ rest.0, rest.1)

  -- The part of UpdateAll for the direct outbound.
  unfoldable pub update_direct : Option Delta → Looper R → Looper R
  update_direct none l = record l { direct_up = rates.zero_rate; direct_down = rates.zero_rate }
  update_direct (some d) l =
      let interval = now - l.direct_last_update in
      let reset = record l {
        direct_up = rates.zero_rate;
        direct_down = rates.zero_rate;
        direct_last_update = now;
      } in
      if nat_eq interval 0 then reset else record reset {
        direct_up = rates.per_second d.up interval;
        direct_down = rates.per_second d.down interval;
        counters = record (l.counters) {
          manager = add_config_delta w direct_stat_profile_id d.up d.down l.counters.manager;
        };
      }

  -- UpdateAll; `disabled` is disable_traffic_stats, and `counts` the response, in which the core has
  -- the tags of `ups` in `downs` too.
  unfoldable pub update_all : Bool → List (String × Delta) → Looper R → Looper R
  update_all disabled counts l =
      let reset = record l { proxy_up = rates.zero_rate; proxy_down = rates.zero_rate } in
      let done = update_groups counts l.groups reset in
      if disabled
      then l
      else update_direct (find "direct" counts) (record (done.1) { groups = done.0 })

-- The ids that PersistTraffic hands to SaveTrafficBatch, with the profile of each.
unfoldable pub persisted : {R : Type 0} → List (LooperGroup R) → List ℤ
persisted [] = []
persisted (g ∷ gs) = keep (λ id. not (is_negative id)) g.profiles ++ persisted gs
