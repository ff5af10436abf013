-- ===== src/Config/Hops/Order.antt =====
-- The order of the hops of a chain (entIDListtoEntList, buildOutboundChain in src/configs/generate.cpp).
use mathlib.Core.List.{append_assoc, append-nil}
use mathlib.Core.Bool.{true≢false}
use text.Mathlib.TextEquality.{eq_iff}
use free_link_app.Common.{
  is_empty, ℕ, ◌<◌, ℤ, ℤ_eq, String, String_eq, ◌≡◌, refl, sym, ap, ◌∙◌, Bool, true, false, not,
  Option, none, some, List, [], ◌∷◌, ◌++◌, ◌==◌, ltb, arith, Bool-cases, inl, inr, All, if_rule,
  if_split,
}
use free_link_app.Config.Context.{Hop, World}
use free_link_app.Config.Hops.{
  Scan, first_of, refusals, start, enter, append_hop, scan, refusal, ent_list, Parts, put_in,
  put_hop, put_hops, parts_of, get_warp_profile, warp_profile_id,
}

abbrev pub joined : Parts → List Hop
joined p = p.initial_sing ++ (p.xray ++ p.tailing_sing)

empty_is : {A : Type 0} (l : List A) → is_empty l ≡ true → l ≡ []
empty_is [] h = refl
empty_is (x ∷ xs) h = cc

pub snoc_some : {A : Type 0} (l : List A) (x : A) → is_empty (l ++ x ∷ []) ≡ false
snoc_some [] x = refl
snoc_some (y ∷ ys) x = refl

-- How far a chain has come: into its sing-box hops, into its Xray hops, into the sing-box hops behind
-- those, or into one core too many.
data Phase (xray : Bool) (n : ℕ) (into out : Bool) (ents : List Hop) (p : Parts) : Type 0 where
  heading :
      xray ≡ false
      → n ≡ 0
      → into ≡ false
      → out ≡ false
      → p.xray ≡ []
      → p.tailing_sing ≡ []
      → joined p ≡ ents
      → Phase xray n into out ents p
  inside :
      xray ≡ true
      → n ≡ 1
      → into ≡ true
      → out ≡ false
      → is_empty p.xray ≡ false
      → p.tailing_sing ≡ []
      → joined p ≡ ents
      → Phase xray n into out ents p
  tailing :
      xray ≡ false
      → n ≡ 2
      → into ≡ true
      → out ≡ true
      → is_empty p.xray ≡ false
      → is_empty p.tailing_sing ≡ false
      → joined p ≡ ents
      → Phase xray n into out ents p
  lost : 2 < n → Phase xray n into out ents p

abbrev PhaseOf : Scan → Parts → Type 0
PhaseOf s p = Phase s.in_xray s.core_transitions s.sing_to_xray s.xray_to_sing s.ents p

abbrev with_hop : Bool → Hop → Scan → Scan
with_hop x e s = let t = enter x s in record t { ents = t.ents ++ e ∷ [] }

joined_tail :
    (p : Parts) (e : Hop) (ents : List Hop)
    → joined p ≡ ents
    → joined (record p { tailing_sing = p.tailing_sing ++ e ∷ [] }) ≡ ents ++ e ∷ []
joined_tail p e ents h = rw (← h) (
    sym (
      append_assoc p.initial_sing (p.xray ++ p.tailing_sing) (e ∷ [])
      ∙ ap (λ l. p.initial_sing ++ l) (append_assoc p.xray p.tailing_sing (e ∷ []))))

joined_xray :
    (p : Parts) (e : Hop) (ents : List Hop)
    → p.tailing_sing ≡ []
    → joined p ≡ ents
    → joined (record p { xray = p.xray ++ e ∷ [] }) ≡ ents ++ e ∷ []
joined_xray p e ents t h =
    rw (← h, t, append-nil, append-nil) (sym (append_assoc p.initial_sing p.xray (e ∷ [])))

joined_initial :
    (p : Parts) (e : Hop) (ents : List Hop)
    → p.xray ≡ []
    → p.tailing_sing ≡ []
    → joined p ≡ ents
    → joined (record p { initial_sing = p.initial_sing ++ e ∷ [] }) ≡ ents ++ e ∷ []
joined_initial p e ents x t h = rw (← h, x, t, append-nil, append-nil) refl

phase-hop :
    (x : Bool) (e : Hop) (s : Scan) (p : Parts)
    → PhaseOf s p
    → PhaseOf (with_hop x e s) (put_in x e p)
unfolding enter put_in
phase-hop true e s p (heading a n i o px pt j) =
    rw (a, n, o) (inside refl refl refl refl (snoc_some p.xray e) pt (joined_xray p e s.ents pt j))
phase-hop true e s p (inside a n i o px pt j) =
    rw (a, n, i, o)
      (inside refl refl refl refl (snoc_some p.xray e) pt (joined_xray p e s.ents pt j))
phase-hop true e s p (tailing a n i o px pt j) = rw (a, n) (lost (omega arith))
phase-hop true e s p (lost n) = elim (Bool-cases s.in_xray) [
  | inl a ↦ rw a (lost n)
  | inr a ↦ rw a (lost (omega (arith, n)))
]
phase-hop false e s p (heading a n i o px pt j) =
    rw (a, n, i, o, ap is_empty px)
      (heading refl refl refl refl px pt (joined_initial p e s.ents px pt j))
phase-hop false e s p (inside a n i o px pt j) =
    rw (a, n, i, px)
      (tailing refl refl refl refl px (snoc_some p.tailing_sing e) (joined_tail p e s.ents j))
phase-hop false e s p (tailing a n i o px pt j) =
    rw (a, n, i, o, px)
      (tailing refl refl refl refl px (snoc_some p.tailing_sing e) (joined_tail p e s.ents j))
phase-hop false e s p (lost n) = elim (Bool-cases s.in_xray) [
  | inl a ↦ rw a (lost (omega (arith, n)))
  | inr a ↦ rw a (lost n)
]

put_hops-snoc :
    (ents : List Hop) (e : Hop) (p : Parts)
    → put_hops (ents ++ e ∷ []) p ≡ put_hop e (put_hops ents p)
unfolding put_hops
put_hops-snoc [] e p = refl
put_hops-snoc (x ∷ ents) e p = put_hops-snoc ents e (put_hop x p)

-- What holds of the scan and the parts of its hops.
abbrev Sound : Scan → Type 0
Sound s = PhaseOf s (parts_of s.ents)

Sound-hop : (e : Hop) (s : Scan) → Sound s → Sound (with_hop e.is_xray e s)
unfolding parts_of enter
Sound-hop e s h =
    rw (put_hops-snoc s.ents e (record { initial_sing = []; xray = []; tailing_sing = [] }))
      (phase-hop e.is_xray e s (parts_of s.ents) h)

abbrev Settled : Scan × String → Type 0
Settled (s, error) = error ≡ "" → Sound s

found-Settled :
    (ent : Hop) (s : Scan) (o : Option Hop) (f : Hop → Scan × String)
    → ((ent : Hop) → Settled (f ent))
    → Settled (elim o [
      | none ↦ (s, "Null proxy in chain, you may want to check your configs")
      | some ent ↦ f ent
    ])
found-Settled ent s none f h = λ e. cc
found-Settled ent s (some x) f h = h x

scan-Settled : (w : World) (ids : List ℤ) (s : Scan) → Sound s → Settled (scan w ids s)
unfolding scan append_hop
scan-Settled w [] s h = λ e. h
scan-Settled w (id ∷ ids) s h =
    if_rule Settled (id == warp_profile_id) _ _
      (scan-Settled w ids (with_hop false (get_warp_profile w) s)
        (Sound-hop (get_warp_profile w) s h))
      (found-Settled (get_warp_profile w) s (w.get_profile id) _ (λ ent.
        if_rule Settled (ent.type_name == "chain") _ _ (λ e. cc)
          (scan-Settled w ids (append_hop ent (enter ent.is_xray s)) (Sound-hop ent s h))))

start-Sound : Sound start
unfolding parts_of put_hops
start-Sound = heading refl refl refl refl refl refl refl

-- The parts of a chain that is not refused, in the order in which traffic goes through them.
pub record Sorted (s : Scan) : Type 0 where
  pub in_order : joined (parts_of s.ents) ≡ s.ents
  pub into_xray : s.sing_to_xray ≡ not (is_empty (parts_of s.ents).xray)
  pub back_to_sing : s.xray_to_sing ≡ not (is_empty (parts_of s.ents).tailing_sing)

-- Where no error has come, no test has held.
first_of-All :
    (tests : List (Bool × String))
    → All (λ t. (t.1 == "") ≡ false) tests
    → first_of tests ≡ ""
    → All (λ t. t.0 ≡ false) tests
first_of-All [] errors h = tt
first_of-All ((true, error) ∷ tests) (some_error, errors) h =
    let no_error : (error == "") ≡ true = (eq_iff error "").1 h in
    absurd (true≢false (sym no_error ∙ some_error))
first_of-All ((false, error) ∷ tests) (some_error, errors) h = (refl, first_of-All tests errors h)

refusal-few : (s : Scan) → refusal s ≡ "" → ltb 2 s.core_transitions ≡ false
refusal-few s h =
    (first_of-All (refusals s) (refl, (refl, (refl, (refl, (refl, (refl, (refl, (refl, tt))))))))
      h).1.1.1.1.1.1.1.0

phase-Sorted : (s : Scan) → Sound s → ltb 2 s.core_transitions ≡ false → Sorted s
phase-Sorted s (heading a n i o px pt j) few = record {
  in_order = j;
  into_xray = i ∙ sym (ap (λ l. not (is_empty l)) px);
  back_to_sing = o ∙ sym (ap (λ l. not (is_empty l)) pt);
}
phase-Sorted s (inside a n i o px pt j) few = record {
  in_order = j;
  into_xray = i ∙ sym (ap not px);
  back_to_sing = o ∙ sym (ap (λ l. not (is_empty l)) pt);
}
phase-Sorted s (tailing a n i o px pt j) few = record {
  in_order = j;
  into_xray = i ∙ sym (ap not px);
  back_to_sing = o ∙ sym (ap not pt);
}
phase-Sorted s (lost n) few = absurd (ground arith)

abbrev Listed : Scan × String → Type 0
Listed (s, error) = error ≡ "" → Sorted s

-- A chain that is not refused falls into sing-box hops, Xray hops and sing-box hops that make up the
-- whole chain in its order; it has Xray hops just where the scan has seen a transition into Xray, and
-- hops behind them just where it has seen one back.
pub ent_list-Sorted :
    (w : World) (ids : List ℤ) → (ent_list w ids).1 ≡ "" → Sorted (ent_list w ids).0
unfolding ent_list
ent_list-Sorted w ids =
    let (s, error) = scan w ids start in
    if_split Listed (error == "") (s, refusal s) (s, error)
      (λ t e.
        phase-Sorted s (scan-Settled w ids start start-Sound ((eq_iff error "").0 t))
          (refusal-few s e))
      (λ t e. let never : (error == "") ≡ true = (eq_iff error "").1 e in cc)
