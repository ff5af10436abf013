-- ===== src/Config/Prerequisites/Points.antt =====
-- The tags of the needed outbounds count the hops of the groups before theirs (src/configs/generate.cpp).
use mathlib.Core.List.{append_assoc}
use mathlib.Core.Bool.{true≢false}
use text.Mathlib.TextEquality.{eq_iff}
use free_link_app.Common.{
  Option_rule, is_none, is_empty, ℕ, ◌+◌, ℤ, pos, negsuc, int_eq_iff, ℤ_eq, is_negative, String,
  String_eq, ◌≡◌, refl, sym, ap, ◌∙◌, Bool, true, ◌||◌, false, Option, none, some, List, [], ◌∷◌,
  ◌++◌, ◌==◌, if◌then◌else◌, length, lookup, lookup-insert, Bool-cases, inl, inr, if_rule, if_split,
  arith,
}
use free_link_app.Config.Context.{Hop, World}
use free_link_app.Config.Chain.{numbered}
use free_link_app.Config.Section.{RouteGroup, reversed}
use free_link_app.Config.Prerequisites.{
  Needs, no_needs, is_unroutable, ent_domains, add_domains, need_hops, assign, need_chain, need_ent,
  need_outbound, need_outbounds, assigned,
}

-- The suffix that buildOutboundsSection gives to a group behind these.
abbrev pub total : List RouteGroup → ℕ
total [] = 0
total (g ∷ gs) = length g.hop_ids + total gs

total-snoc :
    (gs : List RouteGroup) (g : RouteGroup) → total (gs ++ g ∷ []) ≡ total gs + length g.hop_ids
total-snoc [] g = omega arith
total-snoc (h ∷ gs) g = omega (arith, total-snoc gs g)

-- The hops of an outbound
abbrev hops_of_ent : ℤ → Option Hop → List ℤ
hops_of_ent id none = []
hops_of_ent id (some ent) =
    if ent.type_name == "chain"
    then elim ent.chain [ none ↦ [] | some ids ↦ reversed ids ]
    else id ∷ []

abbrev pub hops_of : World → ℤ → List ℤ
hops_of w id = hops_of_ent id (w.get_profile id)

-- The tag is that of the first hop of the group that is built for the outbound.
pub record Points (w : World) (groups : List RouteGroup) (id : ℤ) (tag : String) : Type 0 where
  pub before : List RouteGroup
  pub group : RouteGroup
  pub behind : List RouteGroup
  pub stands : groups ≡ before ++ group ∷ behind
  pub hops : group.hop_ids ≡ hops_of w id
  pub names : tag ≡ numbered w "route" (total before)

pub record Sound (w : World) (n : Needs) : Type 0 where
  pub counted : total n.route_outbound_groups ≡ n.suffix
  pub points :
      (id : ℤ) (tag : String)
      → is_negative id ≡ false
      → lookup id n.outbound_map ≡ some tag
      → Points w n.route_outbound_groups id tag

Points-snoc :
    (w : World) (groups : List RouteGroup) (g : RouteGroup) (id : ℤ) (tag : String)
    → Points w groups id tag
    → Points w (groups ++ g ∷ []) id tag
Points-snoc w groups g id tag p = record {
  before = p.before;
  group = p.group;
  behind = p.behind ++ g ∷ [];
  stands = ap (λ l. l ++ g ∷ []) p.stands ∙ append_assoc p.before (p.group ∷ p.behind) (g ∷ []);
  hops = p.hops;
  names = p.names;
}

assign-Sound :
    (w : World) (id : ℤ) (g : RouteGroup) (n : Needs)
    → g.hop_ids ≡ hops_of w id
    → Sound w n
    → Sound w (assign w id g n)
assign-Sound w id g n hops s = record {
  counted = total-snoc n.route_outbound_groups g ∙ ap (λ m. m + length g.hop_ids) s.counted;
  points = λ j tag sign found.
      let set = sym (lookup-insert id j (numbered w "route" n.suffix) n.outbound_map) ∙ found in
      elim (Bool-cases (id == j)) [
        | inl same ↦
            let e : id ≡ j = (int_eq_iff id j).0 same in
            let here : some (numbered w "route" n.suffix) ≡ some tag = rw same at set in
            let new : numbered w "route" n.suffix ≡ tag = cc in
            record {
              before = n.route_outbound_groups;
              group = g;
              behind = [];
              stands = refl;
              hops = hops ∙ ap (hops_of w) e;
              names = sym new ∙ ap (numbered w "route") (sym s.counted);
            }
        | inr other ↦
            Points-snoc w n.route_outbound_groups g j tag (s.points j tag sign (rw other at set))
      ];
}

-- A result without an error is sound.
abbrev pub Settled : World → Needs × String → Type 0
Settled w (n, error) = error ≡ "" → Sound w n

pub add_domains-Sound :
    (w : World) (domains : List String) (n : Needs) → Sound w n → Sound w (add_domains domains n)
add_domains-Sound w domains n s =
    if_rule (Sound w) (is_empty domains) n _ s (record { counted = s.counted; points = s.points })

need_hops-Settled :
    (w : World) (ids : List ℤ) (n : Needs) → Sound w n → Settled w (need_hops w ids n)
unfolding need_hops
need_hops-Settled w [] n s = λ e. s
need_hops-Settled w (id ∷ ids) n s =
    Option_rule (Settled w) (w.get_profile id) _ _ (λ e. cc)
      (λ ent.
        if_rule (Settled w) (is_unroutable ent || ent.type_name == "chain") _ _ (λ e. cc)
          (need_hops-Settled w ids _ (add_domains-Sound w (ent_domains w ent) n s)))

assigned-Settled :
    (w : World) (id : ℤ) (g : RouteGroup) (q : Needs × String)
    → g.hop_ids ≡ hops_of w id
    → Settled w q
    → Settled w (assigned w id g q)
assigned-Settled w id g (n, error) hops h =
    if_split (Settled w) (error == "") _ _
      (λ t e. assign-Sound w id g n hops (h ((eq_iff error "").0 t))) (λ t e. h e)

chain_case :
    (w : World) (id : ℤ) (ent : Hop) (n : Needs)
    → w.get_profile id ≡ some ent
    → (ent.type_name == "chain") ≡ true
    → (o : Option (List ℤ)) → ent.chain ≡ o
    → Sound w n
    → Settled w (need_chain w id o n)
chain_case w id ent n found t none listed s = λ e. cc
chain_case w id ent n found t (some ids) listed s =
    if_rule (Settled w) (is_empty ids) _ _ (λ e. cc)
      (assigned-Settled w id (record { hop_ids = reversed ids; chain_wrapper = some id })
        (need_hops w ids n) (sym (ap (hops_of_ent id) found ∙ rw (t, listed) refl))
        (need_hops-Settled w ids n s))

need_ent-Settled :
    (w : World) (id : ℤ) (o : Option Hop) (n : Needs)
    → w.get_profile id ≡ o
    → Sound w n
    → Settled w (need_ent w id o n)
need_ent-Settled w id none n found s = λ e. cc
need_ent-Settled w id (some ent) n found s =
    if_rule (Settled w) (is_unroutable ent) _ _ (λ e. cc)
      (if_split (Settled w) (ent.type_name == "chain") _ _
        (λ t. chain_case w id ent n found t ent.chain refl s)
        (λ t e.
          assign-Sound w id _ _ (sym (ap (hops_of_ent id) found ∙ rw t refl))
            (add_domains-Sound w (ent_domains w ent) n s)))

pub need_outbounds-Settled :
    (w : World) (ids : List ℤ) (n : Needs) → Sound w n → Settled w (need_outbounds w ids n)
unfolding need_outbounds need_outbound
need_outbounds-Settled w [] n s = λ e. s
need_outbounds-Settled w (id ∷ ids) n s =
    let one : Settled w (need_outbound w id n) =
      if_rule (Settled w) (is_negative id) (n, "") (need_ent w id (w.get_profile id) n) (λ e. s)
        (need_ent-Settled w id (w.get_profile id) n refl s) in
    if_split (Settled w) ((need_outbound w id n).1 == "") _ _
      (λ t. need_outbounds-Settled w ids _ (one ((eq_iff (need_outbound w id n).1 "").0 t)))
      (λ t. one)

no_needs-Points :
    (w : World) (warp : Bool) (id : ℤ) (tag : String)
    → is_negative id ≡ false
    → lookup id (no_needs warp).outbound_map ≡ some tag
    → Points w [] id tag
no_needs-Points w warp (pos n) tag sign found = absurd (true≢false (ap is_none found))
no_needs-Points w warp (negsuc n) tag sign found = absurd (true≢false sign)

pub no_needs-Sound : (w : World) (warp : Bool) → Sound w (no_needs warp)
no_needs-Sound w warp = record { counted = refl; points = no_needs-Points w warp }
