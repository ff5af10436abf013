-- ===== src/Config/Outbounds/Bridges.antt =====
-- What the bridges of a chain do to a context (src/configs/generate.cpp).
use free_link_app.Common.{
  ap, ◌++◌, length, Option_rule, is_empty, suc, ℤ, ℤ_eq, String_eq, ◌≡◌, refl, sym, ◌∙◌, Bool, true,
  false, not, ◌&&◌, Option, none, some, List, [], ◌∷◌, ◌==◌, if◌then◌else◌, Bool-cases, inl, inr,
  if_rule, if_split,
}
use free_link_app.Json.{Fields, is_empty_object}
use free_link_app.Config.Context.{Bridge, no_bridge, Hop, Context, World, Draws}
use free_link_app.Config.Hops.{Parts, put_in, put_hops, parts_of}
use free_link_app.Config.Hops.Order.{snoc_some}
use free_link_app.Config.Outbounds.{
  with_bridge, custom_bridge, join_custom, final_egress, through, bound, join_full_config,
  full_config_at, bridge_in, bridge_out,
}
use free_link_app.Config.Outbounds.Marks.{crossings, crossings-snoc, length-snoc}

-- The parts of a chain whose last hop has got its bridge are empty where they were.
pub record Alike (p q : Parts) : Type 0 where
  pub xray : is_empty p.xray ≡ is_empty q.xray
  pub tailing : is_empty p.tailing_sing ≡ is_empty q.tailing_sing
  pub initial_size : length p.initial_sing ≡ length q.initial_sing
  pub tailing_size : length p.tailing_sing ≡ length q.tailing_sing

unchanged : (p : Parts) → Alike p p
unchanged p = record { xray = refl; tailing = refl; initial_size = refl; tailing_size = refl }

abbrev no_parts : Parts
no_parts = record { initial_sing = []; xray = []; tailing_sing = [] }

snoc_sizes :
    (l m : List Hop) (e e' : Hop)
    → length l ≡ length m
    → length (l ++ e ∷ []) ≡ length (m ++ e' ∷ [])
snoc_sizes l m e e' h = length-snoc l e ∙ (ap suc h ∙ sym (length-snoc m e'))

put_in-Alike :
    (x : Bool) (e e' : Hop) (p q : Parts) → Alike p q → Alike (put_in x e p) (put_in x e' q)
unfolding put_in
put_in-Alike true e e' p q h = record {
  xray = snoc_some p.xray e ∙ sym (snoc_some q.xray e');
  tailing = h.tailing;
  initial_size = h.initial_size;
  tailing_size = h.tailing_size;
}
put_in-Alike false e e' p q h = elim (Bool-cases (is_empty q.xray)) [
  | inl none_yet ↦
      rw (h.xray, none_yet)
        (record {
          xray = h.xray;
          tailing = h.tailing;
          initial_size = snoc_sizes p.initial_sing q.initial_sing e e' h.initial_size;
          tailing_size = h.tailing_size;
        })
  | inr some_yet ↦
      rw (h.xray, some_yet)
        (record {
          xray = h.xray;
          tailing = snoc_some p.tailing_sing e ∙ sym (snoc_some q.tailing_sing e');
          initial_size = h.initial_size;
          tailing_size = snoc_sizes p.tailing_sing q.tailing_sing e e' h.tailing_size;
        })
]

put_hops-Alike :
    (b : Bridge) (ents : List Hop) (p q : Parts)
    → Alike p q
    → Alike (put_hops (with_bridge b ents) p) (put_hops ents q)
unfolding put_hops
put_hops-Alike b [] p q h = h
put_hops-Alike b (ent ∷ []) p q h = put_in-Alike ent.is_xray (record ent { bridge = b }) ent p q h
put_hops-Alike b (ent ∷ next ∷ ents) p q h =
    put_hops-Alike b (next ∷ ents) _ _ (put_in-Alike ent.is_xray ent ent p q h)

-- The bridge into a whole Xray configuration changes no part of the chain and no pair.
pub record Kept (ctx : Context) (ents : List Hop) (q : Context × List Hop) : Type 0 where
  pub bridges : q.0.xray_to_sing_bridges ≡ ctx.xray_to_sing_bridges
  pub tags : q.0.sing_ingress_tags ≡ ctx.sing_ingress_tags
  pub flag : q.0.xray_to_sing_transitioned ≡ ctx.xray_to_sing_transitioned
  pub into : q.0.sing_to_xray_transitioned ≡ ctx.sing_to_xray_transitioned
  pub alike : Alike (parts_of q.1) (parts_of ents)

kept : (ctx : Context) (ents : List Hop) → Kept ctx ents (ctx, ents)
kept ctx ents = record {
  bridges = refl;
  tags = refl;
  flag = refl;
  into = refl;
  alike = unchanged (parts_of ents);
}

join_custom-Kept :
    (d : Draws) (ents : List Hop) (ctx : Context) (c : Option Fields)
    → Kept ctx ents (join_custom d ents ctx c)
unfolding parts_of
join_custom-Kept d ents ctx none = record {
  bridges = refl;
  tags = refl;
  flag = refl;
  into = refl;
  alike = unchanged (parts_of ents);
}
join_custom-Kept d ents ctx (some config) =
    let alike = put_hops-Alike (custom_bridge d) ents _ _ (unchanged no_parts) in
    if_rule (Kept ctx ents) (is_empty_object config) _ _
      (record {
        bridges = refl;
        tags = refl;
        flag = refl;
        into = refl;
        alike = unchanged (parts_of ents);
      })
      (record { bridges = refl; tags = refl; flag = refl; into = refl; alike = alike })

pub join_full_config-Kept :
    (d : Draws) (ents : List Hop) (ctx : Context) → Kept ctx ents (join_full_config d ents ctx)
unfolding join_full_config
join_full_config-Kept d ents ctx =
    Option_rule (Kept ctx ents) (full_config_at ents) (ctx, ents)
      (λ ent. join_custom d ents ctx ent.custom) (kept ctx ents)
      (λ ent. join_custom-Kept d ents ctx ent.custom)

-- What the bridge out of Xray adds.
pub record Crosses (ctx : Context) (q : Bridge × Context) : Type 0 where
  pub bridges : crossings q.1.xray_to_sing_bridges ≡ (
      if ctx.xray_to_sing_transitioned
      then suc (crossings ctx.xray_to_sing_bridges)
      else crossings ctx.xray_to_sing_bridges)
  pub tags : q.1.sing_ingress_tags ≡ ctx.sing_ingress_tags

uncrossed :
    (ctx : Context) (q : Bridge × Context)
    → ctx.xray_to_sing_transitioned ≡ false
    → crossings q.1.xray_to_sing_bridges ≡ crossings ctx.xray_to_sing_bridges
    → q.1.sing_ingress_tags ≡ ctx.sing_ingress_tags
    → Crosses ctx q
uncrossed ctx q t b s = record { bridges = rw t b; tags = s }

crossed_once :
    (ctx : Context) (q : Bridge × Context)
    → ctx.xray_to_sing_transitioned ≡ true
    → crossings q.1.xray_to_sing_bridges ≡ suc (crossings ctx.xray_to_sing_bridges)
    → q.1.sing_ingress_tags ≡ ctx.sing_ingress_tags
    → Crosses ctx q
crossed_once ctx q t b s = record { bridges = rw t b; tags = s }

pub bridge_out-Crosses :
    (d : Draws) (port : ℤ) (p : Parts) (ctx : Context) → Crosses ctx (bridge_out d port p ctx)
unfolding bridge_out
bridge_out-Crosses d port p ctx =
    let bridges = ctx.xray_to_sing_bridges in
    let looped =
      if final_egress p ctx && ctx.tun_enabled then through d port true ctx else (no_bridge, ctx) in
    if_split (Crosses ctx) ctx.xray_to_sing_transitioned (through d port false ctx)
      (if final_egress p ctx && not (ctx.default_interface == "") then bound ctx else looped)
      (λ t. crossed_once ctx (through d port false ctx) t (crossings-snoc bridges _) refl)
      (λ t.
        if_rule (Crosses ctx) (final_egress p ctx && not (ctx.default_interface == "")) (bound ctx)
          looped (uncrossed ctx (bound ctx) t refl refl)
          (if_rule (Crosses ctx) (final_egress p ctx && ctx.tun_enabled) (through d port true ctx)
            (no_bridge, ctx)
            (uncrossed ctx (through d port true ctx) t
              (crossings-snoc bridges (through d port true ctx).0) refl)
            (uncrossed ctx (no_bridge, ctx) t refl refl)))

-- The bridge into Xray changes neither.
pub record Untouched (p : Parts) (ctx : Context) (q : Parts × Context) : Type 0 where
  pub bridges : q.1.xray_to_sing_bridges ≡ ctx.xray_to_sing_bridges
  pub tags : q.1.sing_ingress_tags ≡ ctx.sing_ingress_tags
  pub flag : q.1.xray_to_sing_transitioned ≡ ctx.xray_to_sing_transitioned
  pub tail : q.0.tailing_sing ≡ p.tailing_sing

pub bridge_in-Untouched :
    (w : World) (d : Draws) (port : ℤ) (p : Parts) (ctx : Context)
    → Untouched p ctx (bridge_in w d port p ctx)
unfolding bridge_in
bridge_in-Untouched w d port p ctx =
    if_rule (Untouched p ctx) ctx.sing_to_xray_transitioned _ (p, ctx)
      (record { bridges = refl; tags = refl; flag = refl; tail = refl })
      (record { bridges = refl; tags = refl; flag = refl; tail = refl })
