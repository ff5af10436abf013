-- ===== src/Stats/PollExamples.antt =====
-- Polls of a few connections (src/stats/connectionLister/connectionLister.cpp).
use free_link_app.Common.{◌≡◌, refl, ℕ, String_eq, true, List, [], ◌∷◌, arith}
use free_link_app.Stats.Table.{upload}
use free_link_app.Stats.Connections.{
  Connection, Response, Ledger, next_sample, sample_all, account, credit, credit_active,
  credit_closed, set_sort, default, by_upload,
}
use free_link_app.Stats.Connections.Credits.{
  credited_for, Life, sees, closes, finished, in_ring, credited_for-Life,
}

abbrev browser : ℕ → Connection
browser n = record {
  id = "c1";
  upload = n;
  download = 0;
  process = "firefox";
  process_path = "/bin/firefox";
}

abbrev nameless : Connection
nameless = record { id = "c2"; upload = 7; download = 1; process = ""; process_path = "" }

abbrev nothing_seen : Ledger
nothing_seen = record { last_bytes = []; accounted_closed = [] }

abbrev first_poll : Response
first_poll = record { active = browser 10 ∷ nameless ∷ []; closed = [] }

abbrev second_poll : Response
second_poll = record { active = nameless ∷ browser 25 ∷ []; closed = [] }

abbrev last_polls : Response
last_polls = record { active = nameless ∷ []; closed = browser 30 ∷ [] }

first_credits :
    (account first_poll nothing_seen).0
    ≡ record { app = "firefox"; path = "/bin/firefox"; up = 10; down = 0 }
      ∷ record { app = "Unknown"; path = ""; up = 7; down = 1 }
      ∷ []
unfolding account credit_active credit_closed credit
first_credits = refl

-- A second after its first sample a connection has a speed; a tenth later it keeps it.
first_speed :
    sample_all 2000
      ((
        "c1",
        record { upload = 10; download = 0; sampled_at_ms = 1000; up_speed = 0; down_speed = 0 },
      )
        ∷ [])
      (browser 25 ∷ [])
    ≡ (
      "c1",
      record { upload = 25; download = 0; sampled_at_ms = 2000; up_speed = 15; down_speed = 0 },
    )
      ∷ []
unfolding sample_all next_sample
first_speed = refl

reselected : set_sort by_upload (set_sort by_upload (default, true)) ≡ (by_upload, true)
unfolding set_sort
reselected = refl

abbrev polls : List Response
polls = first_poll ∷ second_poll ∷ last_polls ∷ last_polls ∷ []

browser-Life : Life upload "c1" 30 0 polls
browser-Life =
    sees (browser 10) (record { one_active = refl; no_closed = refl }) (omega arith)
      (sees (browser 25) (record { one_active = refl; no_closed = refl }) (omega arith)
        (closes (browser 30) (record { no_active = refl; one_closed = refl }) (omega arith) refl
          (in_ring (browser 30) (record { no_active = refl; one_closed = refl }) finished)))

credited_for-Life_example : credited_for upload "c1" polls nothing_seen ≡ 30
credited_for-Life_example =
    credited_for-Life upload "c1" 30 polls nothing_seen refl refl browser-Life
