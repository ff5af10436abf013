-- ===== src/Config/Prerequisites/Tags.antt =====
-- The tags of the needed outbounds are those of the chains built for them (src/configs/generate.cpp).
use free_link_app.Common.{
  All-map, ℕ, suc, ◌+◌, ℤ, ℤ_eq, is_negative, String, String_eq, ◌≡◌, ap, ◌∙◌, Bool, All, false,
  some, List, [], ◌∷◌, ◌++◌, length, lookup, arith,
}
use free_link_app.Config.Context.{Context, World, Draws}
use free_link_app.Config.Chain.{numbered}
use free_link_app.Config.Section.{RouteGroup, build_route_chains, credit_wrapper, route_args}
use free_link_app.Config.Prerequisites.{no_needs, need_outbounds}
use free_link_app.Config.Outbounds.{build_outbound_chain}
use free_link_app.Config.Prerequisites.Points.{
  total, hops_of, Points, need_outbounds-Settled, no_needs-Sound,
}
use free_link_app.Config.Prerequisites.Presence.{Has, need_outbounds-Grown}

-- The outbound has a group that is built as a chain of its own, with its hops, at the suffix of the tag.
pub record Built (w : World) (draws : ℕ → Draws) (groups : List RouteGroup) (ctx : Context) (id : ℤ)
    (tag : String) : Type 0 where
  pub group : RouteGroup
  pub place : ℕ
  pub start_suffix : ℕ
  pub earlier : Context
  pub behind : List RouteGroup
  pub hops : group.hop_ids ≡ hops_of w id
  pub names : tag ≡ numbered w "route" start_suffix
  pub built :
      build_route_chains w draws 1 0 groups ctx
      ≡ build_route_chains w draws (suc place) (start_suffix + length group.hop_ids) behind (
          credit_wrapper group.chain_wrapper (
            build_outbound_chain w
              (draws place)
              (route_args group start_suffix)
              group.hop_ids
              earlier))

build_route_chains-append :
    (w : World) (draws : ℕ → Draws) (n s : ℕ) (before rest : List RouteGroup) (ctx : Context)
    → build_route_chains w draws n s (before ++ rest) ctx
      ≡ build_route_chains w draws
          (length before + n)
          (total before + s)
          rest
          (build_route_chains w draws n s before ctx)
unfolding build_route_chains
build_route_chains-append w draws n s [] rest ctx =
    let count : n ≡ 0 + n = omega arith in
    let sum : s ≡ 0 + s = omega arith in
    ap (λ c. build_route_chains w draws c s rest ctx) count
    ∙ ap (λ t. build_route_chains w draws (0 + n) t rest ctx) sum
build_route_chains-append w draws n s (g ∷ before) rest ctx =
    let after =
      credit_wrapper g.chain_wrapper
        (build_outbound_chain w (draws n) (route_args g s) g.hop_ids ctx) in
    let m = length before in
    let earlier = build_route_chains w draws (suc n) (s + length g.hop_ids) before in
    let count : m + suc n ≡ suc m + n = omega arith in
    let sum : total before + (s + length g.hop_ids) ≡ length g.hop_ids + total before + s =
      omega arith in
    build_route_chains-append w draws (suc n) (s + length g.hop_ids) before rest after
    ∙ (ap
          (λ c.
            build_route_chains w draws c (total before + (s + length g.hop_ids)) rest
              (earlier after))
          count
        ∙ ap (λ t. build_route_chains w draws (suc m + n) t rest (earlier after)) sum)

Points-Built :
    (w : World) (draws : ℕ → Draws) (groups : List RouteGroup) (ctx : Context) (id : ℤ)
    (tag : String)
    → Points w groups id tag
    → Built w draws groups ctx id tag
unfolding build_route_chains
Points-Built w draws groups ctx id tag p = record {
  group = p.group;
  place = length p.before + 1;
  start_suffix = total p.before + 0;
  earlier = build_route_chains w draws 1 0 p.before ctx;
  behind = p.behind;
  hops = p.hops;
  names = p.names ∙ ap (numbered w "route") (omega arith);
  built =
      ap (λ gs. build_route_chains w draws 1 0 gs ctx) p.stands
      ∙ build_route_chains-append w draws 1 0 p.before (p.group ∷ p.behind) ctx;
}

-- Where the loop over the needed outbounds meets no error, each of them that is a profile has a tag,
-- and the section of outbounds builds a chain of its own with the hops of that profile, numbered from
-- the number in the tag on.
pub need_outbounds-Built :
    (w : World) (draws : ℕ → Draws) (warp : Bool) (ids : List ℤ) (ctx : Context)
    → (need_outbounds w ids (no_needs warp)).1 ≡ ""
    → let n = (need_outbounds w ids (no_needs warp)).0 in
      All
        (λ id.
          is_negative id ≡ false
          → (tag : String) × (lookup id n.outbound_map ≡ some tag)
            × Built w draws n.route_outbound_groups ctx id tag)
        ids
unfolding Has
need_outbounds-Built w draws warp ids ctx e =
    let sound = need_outbounds-Settled w ids (no_needs warp) (no_needs-Sound w warp) e in
    let (keeps, all) = need_outbounds-Grown w ids (no_needs warp) e in
    let n = (need_outbounds w ids (no_needs warp)).0 in
    All-map (λ id. is_negative id ≡ false → Has id n.outbound_map) _ ids all
      (λ id has sign.
        let (tag, found) = has sign in
        (
          tag,
          found,
          Points-Built w draws n.route_outbound_groups ctx id tag (sound.points id tag sign found),
        ))
