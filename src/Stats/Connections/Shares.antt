-- ===== src/Stats/Connections/Shares.antt =====
-- A poll credits each connection by itself (src/stats/connectionLister/connectionLister.cpp).
use free_link_app.Common.{
  ◌≡◌, refl, ◌∙◌, ℕ, ◌+◌, String, String_eq, not, List, [], ◌∷◌, ◌++◌, if◌then◌else◌, keep,
  contains, arith, Bool-cases, inl, inr,
}
use free_link_app.Stats.Table.{Direction}
use free_link_app.Stats.Connections.{
  Connection, Response, Credit, Ledger, credit, credit_active, credit_closed, account,
}
use free_link_app.Stats.Connections.Credits.{sum_credits, is_of, only}

-- A response without one connection.
abbrev pub without : String → Response → Response
without id r = record {
  active = keep (λ c. not (is_of id c)) r.active;
  closed = keep (λ c. not (is_of id c)) r.closed;
}

module _ (d : Direction) where
  sum-append :
      (as' bs : List Credit) → sum_credits d (as' ++ bs) ≡ sum_credits d as' + sum_credits d bs
  sum-append [] bs = omega arith
  sum-append (a ∷ as') bs = omega (arith, sum-append as' bs)

  module _ (id : String) where
    sum-active :
        (last : List (String × (ℕ × ℕ))) (cs : List Connection)
        → sum_credits d (credit_active last cs)
          ≡ sum_credits d (credit_active last (keep (is_of id) cs))
            + sum_credits d (credit_active last (keep (λ c. not (is_of id c)) cs))
    unfolding credit_active
    sum-active last [] = refl
    sum-active last (c ∷ cs) = elim (Bool-cases (is_of id c)) [
      | inl e ↦ rw e (
          omega (
            arith,
            sum-append (credit last c) (credit_active last cs),
            sum-append (credit last c) (credit_active last (keep (is_of id) cs)),
            sum-active last cs,
          ))
      | inr e ↦ rw e (
          omega (
            arith,
            sum-append (credit last c) (credit_active last cs),
            sum-append (credit last c) (credit_active last (keep (λ c. not (is_of id c)) cs)),
            sum-active last cs,
          ))
    ]

    -- What the ring adds for a connection, unless it was accounted.
    sum-ring :
        (l : Ledger) (c : Connection) (cs : List Connection)
        → sum_credits d (credit_closed l (c ∷ cs))
          ≡ (if contains l.accounted_closed c.id then 0 else sum_credits d (credit l.last_bytes c))
            + sum_credits d (credit_closed l cs)
    unfolding credit_closed
    sum-ring l c cs = elim (Bool-cases (contains l.accounted_closed c.id)) [
      | inl e ↦ rw e (omega arith)
      | inr e ↦ rw e (sum-append (credit l.last_bytes c) (credit_closed l cs))
    ]

    sum-closed :
        (l : Ledger) (cs : List Connection)
        → sum_credits d (credit_closed l cs)
          ≡ sum_credits d (credit_closed l (keep (is_of id) cs))
            + sum_credits d (credit_closed l (keep (λ c. not (is_of id c)) cs))
    unfolding credit_closed
    sum-closed l [] = refl
    sum-closed l (c ∷ cs) = sum-ring l c cs ∙ elim (Bool-cases (is_of id c)) [
      | inl e ↦ rw e (omega (arith, sum-ring l c (keep (is_of id) cs), sum-closed l cs))
      | inr e ↦
          rw e (omega (arith, sum-ring l c (keep (λ c. not (is_of id c)) cs), sum-closed l cs))
    ]

-- The bytes that a poll credits are those that it would credit for one connection alone and those
-- that it would credit for the others alone.
pub sum_credits-account :
    (d : Direction) (id : String) (r : Response) (l : Ledger)
    → sum_credits d (account r l).0
      ≡ sum_credits d (account (only id r) l).0 + sum_credits d (account (without id r) l).0
unfolding account
sum_credits-account d id r l = omega (
  arith,
  sum-append d (credit_active l.last_bytes r.active) (credit_closed l r.closed),
  sum-append d (credit_active l.last_bytes (keep (is_of id) r.active))
      (credit_closed l (keep (is_of id) r.closed)),
  sum-append d (credit_active l.last_bytes (keep (λ c. not (is_of id c)) r.active))
      (credit_closed l (keep (λ c. not (is_of id c)) r.closed)),
  sum-active d id l.last_bytes r.active,
  sum-closed d id l r.closed,
)
