-- ===== src/Stats/Connections/Credits.antt =====
-- What the polls credit for one connection in its whole life
-- (src/stats/connectionLister/connectionLister.cpp).
use free_link_app.Common.{
  ◌≡◌, refl, sym, ap, ◌∙◌, ◌≤◌, ℕ, ◌+◌, ◌-◌, String, String_eq, Bool, true, false, not, Option,
  none, some, List, [], ◌∷◌, ◌++◌, map, ◌==◌, keep, contains, arith, Bool-cases, inl, inr, is_empty,
}
use mathlib.Core.List.{append-nil}
use text.Mathlib.TextEquality.{eq_iff}
use free_link_app.Stats.Table.{Direction, upload, download, pick}
use free_link_app.Stats.Connections.{
  Connection, Response, Credit, Ledger, find, base_of, credit, credit_active, credit_closed,
  account,
}

-- The bytes of credits in one direction.
abbrev pub sum_credits : Direction → List Credit → ℕ
sum_credits d [] = 0
sum_credits d (c ∷ cs) = pick d c.up c.down + sum_credits d cs

abbrev pub is_of : String → Connection → Bool
is_of id c = c.id == id

-- What a response says of one connection.
abbrev pub only : String → Response → Response
only id r = record { active = keep (is_of id) r.active; closed = keep (is_of id) r.closed }

abbrev pub counter : Direction → Connection → ℕ
counter d c = pick d c.upload c.download

-- The bytes that a series of polls credits for a connection.
abbrev pub credited_for : Direction → String → List Response → Ledger → ℕ
credited_for d id [] l = 0
credited_for d id (r ∷ rs) l =
    sum_credits d (account (only id r) l).0 + credited_for d id rs (account r l).1

-- A response that shows a connection nowhere, live once, or closed once.
pub record IsAbsent (id : String) (r : Response) : Type 0 where
  pub no_active : keep (is_of id) r.active ≡ []
  pub no_closed : keep (is_of id) r.closed ≡ []

pub record IsLive (id : String) (c : Connection) (r : Response) : Type 0 where
  pub one_active : keep (is_of id) r.active ≡ c ∷ []
  pub no_closed : keep (is_of id) r.closed ≡ []

pub record IsClosed (id : String) (c : Connection) (r : Response) : Type 0 where
  pub no_active : keep (is_of id) r.active ≡ []
  pub one_closed : keep (is_of id) r.closed ≡ c ∷ []

-- Polls that show the connection in the ring of closed ones until it is evicted.
pub data Buried (id : String) : List Response → Type 0 where
  finished : Buried id []
  in_ring :
      {r : Response} {rs : List Response} (c : Connection)
      → IsClosed id c r
      → Buried id rs
      → Buried id (r ∷ rs)

-- Polls that show the connection live, with counters that do not shrink, and then closed with the
-- counter `total` in the direction `d`.
pub data Life (d : Direction) (id : String) (total : ℕ) : ℕ → List Response → Type 0 where
  sees :
      {last : ℕ} {r : Response} {rs : List Response} (c : Connection)
      → IsLive id c r
      → last ≤ counter d c
      → Life d id total (counter d c) rs
      → Life d id total last (r ∷ rs)
  closes :
      {last : ℕ} {r : Response} {rs : List Response} (c : Connection)
      → IsClosed id c r
      → last ≤ total
      → counter d c ≡ total
      → Buried id rs
      → Life d id total last (r ∷ rs)

keep-head :
    (id : String) (c : Connection) (cs l : List Connection) → keep (is_of id) l ≡ c ∷ cs → c.id ≡ id
keep-head id c cs [] h = cc
keep-head id c cs (x ∷ xs) h = elim (Bool-cases (is_of id x)) [
  | inl e ↦
      let kept : x ∷ keep (is_of id) xs ≡ c ∷ cs = rw e at h in
      let same : x ≡ c = cc in ap (λ (y : Connection). y.id) (sym same) ∙ (eq_iff x.id id).0 e
  | inr e ↦ keep-head id c cs xs (rw e at h)
]

abbrev bytes : Connection → String × (ℕ × ℕ)
bytes c = (c.id, (c.upload, c.download))

abbrev first_bytes : List Connection → Option (ℕ × ℕ)
first_bytes [] = none
first_bytes (c ∷ cs) = some (c.upload, c.download)

find-bytes :
    (id : String) (l : List Connection) → find id (map bytes l) ≡ first_bytes (keep (is_of id) l)
find-bytes id [] = refl
find-bytes id (x ∷ xs) = elim (Bool-cases (is_of id x)) [
  | inl e ↦ rw e refl
  | inr e ↦ rw e (find-bytes id xs)
]

contains-ids :
    (id : String) (l : List Connection)
    → contains (map (λ (c : Connection). c.id) l) id ≡ not (is_empty (keep (is_of id) l))
contains-ids id [] = refl
contains-ids id (x ∷ xs) = elim (Bool-cases (is_of id x)) [
  | inl e ↦ rw e refl
  | inr e ↦ rw e (contains-ids id xs)
]

abbrev or_zero : Option (ℕ × ℕ) → ℕ × ℕ
or_zero o = elim o [ none ↦ (0, 0) | some b ↦ b ]

abbrev base : Direction → String → Ledger → ℕ
base d id l = pick d (base_of id l.last_bytes).0 (base_of id l.last_bytes).1

sum-credit :
    (d : Direction) (last : List (String × (ℕ × ℕ))) (c : Connection)
    → sum_credits d (credit last c ++ [])
      ≡ counter d c - pick d (base_of c.id last).0 (base_of c.id last).1
unfolding credit
sum-credit upload last c = ground arith
sum-credit download last c = ground arith

module _ (d : Direction) (id : String) (c : Connection) (r : Response) (l : Ledger) where
  abbrev polled : ℕ
  polled = sum_credits d (account (only id r) l).0

  abbrev after : Ledger
  after = (account r l).1

  one_credit : c.id ≡ id → sum_credits d (credit l.last_bytes c ++ []) ≡ counter d c - base d id l
  one_credit e = sum-credit d l.last_bytes c ∙ ap (λ i. counter d c - base d i l) e

  live_credit : IsLive id c r → polled ≡ counter d c - base d id l
  unfolding account credit_active credit_closed
  live_credit h =
      rw (h.one_active, h.no_closed)
        (ap (sum_credits d) (append-nil (credit l.last_bytes c ++ []))
          ∙ one_credit (keep-head id c [] r.active h.one_active))

  live_base : IsLive id c r → base d id after ≡ counter d c
  unfolding account
  live_base h =
      ap (λ o. pick d (or_zero o).0 (or_zero o).1)
        (find-bytes id r.active ∙ ap first_bytes h.one_active)

  live_fresh : IsLive id c r → contains after.accounted_closed id ≡ false
  unfolding account
  live_fresh h = rw (contains-ids id r.closed, h.no_closed) refl

  closed_credit :
      IsClosed id c r → contains l.accounted_closed id ≡ false → polled ≡ counter d c - base d id l
  unfolding account credit_active credit_closed
  closed_credit h k =
      let e : c.id ≡ id = keep-head id c [] r.closed h.one_closed in
      let fresh : contains l.accounted_closed c.id ≡ false =
        ap (contains l.accounted_closed) e ∙ k in
      rw (h.no_active, h.one_closed, fresh) (one_credit e)

  closed_known : IsClosed id c r → contains after.accounted_closed id ≡ true
  unfolding account
  closed_known h = rw (contains-ids id r.closed, h.one_closed) refl

  buried_credit : IsClosed id c r → contains l.accounted_closed id ≡ true → polled ≡ 0
  unfolding account credit_active credit_closed
  buried_credit h k =
      let e : c.id ≡ id = keep-head id c [] r.closed h.one_closed in
      rw (h.no_active, h.one_closed, e, k) refl

credited-Buried :
    (d : Direction) (id : String) (rs : List Response) (l : Ledger)
    → Buried id rs
    → contains l.accounted_closed id ≡ true
    → credited_for d id rs l ≡ 0
credited-Buried d id [] l finished k = refl
credited-Buried d id (r ∷ rs) l (in_ring c h b) k = omega (
  arith,
  buried_credit d id c r l h k,
  credited-Buried d id rs (account r l).1 b (closed_known d id c r l h),
)

credited-Life :
    (d : Direction) (id : String) (total last : ℕ) (rs : List Response) (l : Ledger)
    → Life d id total last rs
    → base d id l ≡ last
    → contains l.accounted_closed id ≡ false
    → credited_for d id rs l + last ≡ total
credited-Life d id total last [] l f b k = elim f [ ]
credited-Life d id total last (r ∷ rs) l (sees c h m f) b k = omega (
  arith,
  m,
  b,
  live_credit d id c r l h,
  credited-Life d id total (counter d c) rs (account r l).1 f (live_base d id c r l h)
      (live_fresh d id c r l h),
)
credited-Life d id total last (r ∷ rs) l (closes c h m e f) b k = omega (
  arith,
  m,
  e,
  b,
  closed_credit d id c r l h k,
  credited-Buried d id rs (account r l).1 f (closed_known d id c r l h),
)

-- Over a whole life of a connection that the ledger does not know (live with counters that do not
-- shrink, once or more or never, then closed in the ring until it is evicted) the polls credit exactly
-- the bytes that its counter ends with: none is lost and none is counted twice.
pub credited_for-Life :
    (d : Direction) (id : String) (total : ℕ) (rs : List Response) (l : Ledger)
    → find id l.last_bytes ≡ none
    → contains l.accounted_closed id ≡ false
    → Life d id total 0 rs
    → credited_for d id rs l ≡ total
credited_for-Life upload id total rs l n k f =
    let start : base upload id l ≡ 0 = ap (λ o. pick upload (or_zero o).0 (or_zero o).1) n in
    omega (arith, credited-Life upload id total 0 rs l f start k)
credited_for-Life download id total rs l n k f =
    let start : base download id l ≡ 0 = ap (λ o. pick download (or_zero o).0 (or_zero o).1) n in
    omega (arith, credited-Life download id total 0 rs l f start k)
