-- ===== src/Stats/LooperExamples.antt =====
-- A tick of the traffic looper (src/stats/traffic/TrafficLooper.cpp) on a small input.
use free_link_app.Common.{
  ℕ, pos, ℤ_eq, String, String_eq, ◌+◌, ◌*◌, ◌/◌, ◌≡◌, refl, true, false, List, [], ◌∷◌,
}
use free_link_app.Stats.Table.{upload}
use free_link_app.Stats.Repo.{created}
use free_link_app.Stats.Manager.{Delta, Surroundings, Manager}
use free_link_app.Stats.Manager.Ledger.{pending}
use free_link_app.Stats.Looper.{Rates, Looper, update_all, persisted}
use free_link_app.Stats.Looper.Mirror.{Mirrors, update_all-Mirrors}
use free_link_app.Stats.Looper.Due.{due-update_all}

-- Whole bytes to a second.
abbrev whole_rates : Rates ℕ
whole_rates = record {
  zero_rate = 0;
  plus = λ a b. a + b;
  per_second = λ bytes ms. bytes * 1000 / ms;
}

abbrev sound : Surroundings
sound = record {
  disabled = false;
  repo_present = true;
  now = 120;
  retention_days = pos 30;
  config_fails = false;
  app_fails = false;
  meta_fails = false;
  rollup_fails = false;
  prune_fails = false;
}

abbrev empty_books : Manager
empty_books = record {
  config_accum = [];
  app_accum = [];
  app_meta_seen = [];
  current_bucket = 0;
  repo = created;
}

-- Two chains that share profile 7.
abbrev two_chains : Looper ℕ
two_chains = record {
  groups =
      record {
        watch_tag = "a";
        profiles = pos 7 ∷ pos 8 ∷ [];
        last_update = 1000;
        uplink_rate = 0;
        downlink_rate = 0;
      }
      ∷ record {
        watch_tag = "b";
        profiles = pos 7 ∷ [];
        last_update = 1000;
        uplink_rate = 0;
        downlink_rate = 0;
      }
      ∷ [];
  direct_last_update = 1000;
  proxy_up = 0;
  proxy_down = 0;
  direct_up = 0;
  direct_down = 0;
  counters = record { legacy = []; manager = empty_books };
}

abbrev reported : List (String × Delta)
reported =
    ("a", record { up = 10; down = 20 })
    ∷ ("b", record { up = 5; down = 6 })
    ∷ ("direct", record { up = 1; down = 2 })
    ∷ []

both_persisted : persisted (two_chains.groups) ≡ pos 7 ∷ pos 8 ∷ pos 7 ∷ []
unfolding persisted
both_persisted = refl

update_all-Mirrors_example :
    Mirrors upload
      (pos 7)
      two_chains.counters
      (update_all whole_rates sound 2000 false reported two_chains).counters
update_all-Mirrors_example =
    update_all-Mirrors whole_rates upload (pos 7) sound 2000 false reported two_chains
      (record { present = refl; config_ok = refl; app_ok = refl }) refl refl

due-update_all_example :
    pending upload
      (pos 7)
      (update_all whole_rates sound 2000 false reported two_chains).counters.legacy
    ≡ 15
due-update_all_example =
    due-update_all whole_rates upload (pos 7) sound 2000 false reported two_chains
