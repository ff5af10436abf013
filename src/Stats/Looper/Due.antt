-- ===== src/Stats/Looper/Due.antt =====
-- What a tick owes to the counters of the profiles (src/stats/traffic/TrafficLooper.cpp).
use free_link_app.Common.{
  ℕ, ℤ, ℤ_eq, String, String_eq, ◌+◌, ◌-◌, ◌≡◌, refl, Bool, Option, none, some, List, [], ◌∷◌, ◌==◌,
  arith, nat_eq, if_rule, if◌then◌else◌,
}
use free_link_app.Stats.Table.{Direction, pick}
use free_link_app.Stats.Manager.{Delta, Surroundings, add_config_delta, add_delta}
use free_link_app.Stats.Manager.Ledger.{pending, pending-add_delta}
use free_link_app.Stats.Connections.{find}
use free_link_app.Stats.Looper.{
  Rates, LooperGroup, Counters, Looper, credit_profiles, update_group, update_groups, update_direct,
  update_all,
}

-- A profile is owed the bytes once for each time that it stands in the chain.
abbrev profiles_due : Direction → ℤ → ℕ → ℕ → List ℤ → ℕ
profiles_due d k up down [] = 0
profiles_due d k up down (id ∷ ids) =
    (if id == k then pick d up down else 0) + profiles_due d k up down ids

-- A group whose tag the core reports owes its bytes, unless no time has passed since its last update.
abbrev group_due : {R : Type 0} → Direction → ℤ → ℕ → Option Delta → LooperGroup R → ℕ
group_due d k now none g = 0
group_due d k now (some x) g =
    if nat_eq (now - g.last_update) 0 then 0 else profiles_due d k x.up x.down g.profiles

abbrev pub groups_due :
    {R : Type 0} → Direction → ℤ → ℕ → List (String × Delta) → List (LooperGroup R) → ℕ
groups_due d k now counts [] = 0
groups_due d k now counts (g ∷ gs) =
    group_due d k now (find g.watch_tag counts) g + groups_due d k now counts gs

module _ (d : Direction) (k : ℤ) (w : Surroundings) where
  due-credit_profiles :
      (up down : ℕ) (ids : List ℤ) (c : Counters)
      → pending d k (credit_profiles w up down ids c).legacy
        ≡ profiles_due d k up down ids + pending d k c.legacy
  unfolding credit_profiles
  due-credit_profiles up down [] c = omega arith
  due-credit_profiles up down (id ∷ ids) c =
      let first : Counters = record {
        legacy = add_delta id up down c.legacy;
        manager = add_config_delta w id up down c.manager;
      } in
      ground
        (arith, due-credit_profiles up down ids first, pending-add_delta d k id up down c.legacy)

  module _ {R : Type 0} (rates : Rates R) (now : ℕ) where
    due-update_group :
        (o : Option Delta) (g : LooperGroup R) (l : Looper R)
        → pending d k (update_group rates w now o g l).1.counters.legacy
          ≡ group_due d k now o g + pending d k l.counters.legacy
    unfolding update_group
    due-update_group none g l = omega arith
    due-update_group (some x) g l =
        ground (arith, due-credit_profiles x.up x.down g.profiles l.counters)

    due-update_groups :
        (counts : List (String × Delta)) (gs : List (LooperGroup R)) (l : Looper R)
        → pending d k (update_groups rates w now counts gs l).1.counters.legacy
          ≡ groups_due d k now counts gs + pending d k l.counters.legacy
    unfolding update_groups
    due-update_groups counts [] l = omega arith
    due-update_groups counts (g ∷ gs) l =
        let o = find g.watch_tag counts in
        omega (
          arith,
          due-update_group o g l,
          due-update_groups counts gs (update_group rates w now o g l).1,
        )

    legacy-update_direct :
        (o : Option Delta) (l : Looper R)
        → (update_direct rates w now o l).counters.legacy ≡ l.counters.legacy
    unfolding update_direct
    legacy-update_direct none l = refl
    legacy-update_direct (some x) l =
        if_rule (λ (s : Looper R). s.counters.legacy ≡ l.counters.legacy)
          (nat_eq (now - l.direct_last_update) 0) _ _ refl refl

-- A tick adds to a profile's own counter, in each direction, what the groups owe it: the bytes that
-- the core reports for each group that has the profile and for which time has passed. With the
-- statistics off it adds nothing.
pub due-update_all :
    {R : Type 0} (rates : Rates R) (d : Direction) (k : ℤ) (w : Surroundings) (now : ℕ)
    (disabled : Bool) (counts : List (String × Delta)) (l : Looper R)
    → pending d k (update_all rates w now disabled counts l).counters.legacy
      ≡ (if disabled then 0 else groups_due d k now counts l.groups) + pending d k l.counters.legacy
unfolding update_all
due-update_all rates d k w now disabled counts l =
    let reset = record l { proxy_up = rates.zero_rate; proxy_down = rates.zero_rate } in
    let done = update_groups rates w now counts l.groups reset in
    let grouped = record (done.1) { groups = done.0 } in
    ground (
      arith,
      due-update_groups d k w rates now counts l.groups reset,
      legacy-update_direct d k w rates now (find "direct" counts) grouped,
    )
