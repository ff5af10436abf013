-- ===== src/Stats/Connections.antt =====
-- The poll of src/stats/connectionLister/connectionLister.cpp: the speeds of the live connections and
-- the bytes that each poll credits to the apps. A QHash or QSet is a list of entries; the list that a
-- poll builds has one entry to a connection, as the ids in a response differ.
pub mod Credits
pub mod Shares
use free_link_app.Common.{
  ℕ, suc, ◌+◌, ◌-◌, ◌*◌, ◌/◌, ℤ, String, String_eq, Bool, true, false, not, ◌&&◌, ◌||◌, Option,
  none, some, List, [], ◌∷◌, ◌++◌, map, Eq, ◌==◌, if◌then◌else◌, nat_eq, leb, contains,
}

-- The parts of libcore::ConnectionMetaData that the poll uses.
pub record Connection : Type 0 where
  pub id : String
  pub upload : ℕ
  pub download : ℕ
  pub process : String
  pub process_path : String

pub record Response : Type 0 where
  pub active : List Connection
  pub closed : List Connection

pub record SpeedSample : Type 0 where
  pub upload : ℕ
  pub download : ℕ
  pub sampled_at_ms : ℕ
  pub up_speed : ℕ
  pub down_speed : ℕ

-- kSpeedSampleMinMs
abbrev pub speed_sample_min_ms : ℕ
speed_sample_min_ms = 500

abbrev pub find {ℓ} : {A : Type ℓ} → String → List (String × A) → Option A
find k [] = none
find k ((j, a) ∷ m) = if j == k then some a else find k m

-- The sample of a connection, from its last one; a clock that went back counts as no time.
unfoldable pub next_sample : ℕ → Connection → Option SpeedSample → SpeedSample
next_sample now c none = record {
  upload = c.upload;
  download = c.download;
  sampled_at_ms = now;
  up_speed = 0;
  down_speed = 0;
}
next_sample now c (some s) =
    let dt = now - s.sampled_at_ms in
    if leb speed_sample_min_ms dt
    then record {
      upload = c.upload;
      download = c.download;
      sampled_at_ms = now;
      up_speed = (c.upload - s.upload) * 1000 / dt;
      down_speed = (c.download - s.download) * 1000 / dt;
    }
    else s

-- The loop that fills newSamples.
unfoldable pub sample_all :
    ℕ → List (String × SpeedSample) → List Connection → List (String × SpeedSample)
unfolding next_sample
sample_all now old [] = []
sample_all now old (c ∷ cs) = (c.id, next_sample now c (find c.id old)) ∷ sample_all now old cs

-- One call of AddAppDelta.
pub record Credit : Type 0 where
  pub app : String
  pub path : String
  pub up : ℕ
  pub down : ℕ

-- The members of the lister that an accounting poll reads and writes.
pub record Ledger : Type 0 where
  pub last_bytes : List (String × (ℕ × ℕ))
  pub accounted_closed : List String

-- The last seen bytes of a connection, or 0.
abbrev pub base_of : String → List (String × (ℕ × ℕ)) → ℕ × ℕ
base_of id m = elim (find id m) [ none ↦ (0, 0) | some b ↦ b ]

-- The lambda `credit`: what grew since the last sight, if anything did.
unfoldable pub credit : List (String × (ℕ × ℕ)) → Connection → List Credit
credit last c =
    let (base_up, base_down) = base_of c.id last in
    let up = c.upload - base_up in
    let down = c.download - base_down in
    if nat_eq up 0 && nat_eq down 0
    then []
    else record {
      app = if c.process == "" then "Unknown" else c.process;
      path = c.process_path;
      up = up;
      down = down;
    }
      ∷ []

unfoldable pub credit_active : List (String × (ℕ × ℕ)) → List Connection → List Credit
unfolding credit
credit_active last [] = []
credit_active last (c ∷ cs) = credit last c ++ credit_active last cs

-- The closed ring, where a connection that was accounted is passed over.
unfoldable pub credit_closed : Ledger → List Connection → List Credit
unfolding credit
credit_closed l [] = []
credit_closed l (c ∷ cs) =
    let rest = credit_closed l cs in
    if contains l.accounted_closed c.id then rest else credit l.last_bytes c ++ rest

-- The accounting of one poll: the credits in order, and the ledger afterwards.
unfoldable pub account : Response → Ledger → List Credit × Ledger
unfolding credit_active credit_closed
account r l = (
  credit_active l.last_bytes r.active ++ credit_closed l r.closed,
  record {
    last_bytes = map (λ (c : Connection). (c.id, (c.upload, c.download))) r.active;
    accounted_closed = map (λ (c : Connection). c.id) r.closed;
  },
)

pub data ConnectionSort : Type 0 where
  default by_download by_upload by_process by_traffic by_outbound by_protocol by_download_speed
        by_upload_speed by_speed :
      ConnectionSort

abbrev sort_code : ConnectionSort → ℕ
sort_code default = 0
sort_code by_download = 1
sort_code by_upload = 2
sort_code by_process = 3
sort_code by_traffic = 4
sort_code by_outbound = 5
sort_code by_protocol = 6
sort_code by_download_speed = 7
sort_code by_upload_speed = 8
sort_code by_speed = 9

-- setSort, on the sort and whether it ascends
unfoldable pub set_sort : ConnectionSort → ConnectionSort × Bool → ConnectionSort × Bool
set_sort new_sort (sort, asc) =
    if nat_eq (sort_code sort) (sort_code new_sort) then (sort, not asc) else (new_sort, false)
