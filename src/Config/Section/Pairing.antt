-- ===== src/Config/Section/Pairing.antt =====
-- Each bridge from Xray into a chain of sing-box has its ingress (src/configs/generate.cpp).
use text.Mathlib.TextEquality.{eq_iff}
use free_link_app.Common.{
  is_empty, ℕ, suc, ◌+◌, ◌-◌, nat_eq, ℤ, ℤ_eq, String, String_eq, ◌≡◌, refl, sym, ap, ◌∙◌, Bool,
  true, not, Option, none, some, List, [], ◌∷◌, ◌==◌, if◌then◌else◌, length, arith, Bool-cases, inl,
  inr, if_rule, if_split,
}
use free_link_app.Config.Context.{Bridge, Hop, Context, World, Draws}
use free_link_app.Config.Hops.{ent_list, parts_of}
use free_link_app.Config.Hops.Order.{ent_list-Sorted}
use free_link_app.Config.Outbounds.{
  ChainArgs, join_full_config, bridge_in, bridge_out, watched, build_parts, build_ents,
  scanned_context, build_outbound_chain,
}
use free_link_app.Config.Section.{
  RouteGroup, Wanted, credit_wrapper, own_args, route_args, build_route_chains, loopback_count,
  wrapper, build_chains, own_hops, close_section, build_outbounds_section,
}
use free_link_app.Repos.Groups.{Group}
use free_link_app.Config.Outbounds.Marks.{
  crossings, Marks, Marks-then, build_parts-Marks, watched-Marks,
}
use free_link_app.Config.Outbounds.Bridges.{
  Crosses, join_full_config-Kept, bridge_out-Crosses, bridge_in-Untouched,
}

-- The pairs: as many bridges lead back into chains as there are ingresses.
pub record Paired (ctx : Context) : Type 0 where
  pub paired : crossings ctx.xray_to_sing_bridges ≡ length ctx.sing_ingress_tags

-- The bridges and the marks of a chain are paired.
both :
    (m : Bool) (joined entered bridged after : Context) (b : Bridge)
    → Paired joined
    → entered.xray_to_sing_bridges ≡ joined.xray_to_sing_bridges
    → entered.sing_ingress_tags ≡ joined.sing_ingress_tags
    → entered.xray_to_sing_transitioned ≡ m
    → Crosses entered (b, bridged)
    → Marks m bridged after
    → Paired after
both m joined entered bridged after b h e t f c k =
    let start : crossings entered.xray_to_sing_bridges ≡ length entered.sing_ingress_tags =
      ap crossings e ∙ (h.paired ∙ sym (ap length t)) in
    record {
      paired =
          ap crossings k.bridges
          ∙ (c.bridges
              ∙ (ap
                    (λ f.
                      if f
                      then suc (crossings entered.xray_to_sing_bridges)
                      else crossings entered.xray_to_sing_bridges)
                    f
                  ∙ (ap (λ n. if m then suc n else n) (start ∙ sym (ap length c.tags))
                      ∙ sym k.ingresses)));
    }

build_ents-Paired :
    (w : World) (d : Draws) (a : ChainArgs) (listed : List Hop) (ctx : Context)
    → ctx.xray_to_sing_transitioned ≡ not (is_empty (parts_of listed).tailing_sing)
    → Paired ctx
    → Paired (build_ents w d a listed ctx)
unfolding build_ents
build_ents-Paired w d a listed ctx flag h =
    let q = join_full_config d listed ctx in
    let k = join_full_config-Kept d listed ctx in
    let r = bridge_in w d a.sing_to_xray_port (parts_of q.1) q.0 in
    let u = bridge_in-Untouched w d a.sing_to_xray_port (parts_of q.1) q.0 in
    let s = bridge_out d a.xray_to_sing_port r.0 r.1 in
    let paired : Paired q.0 = record {
      paired = ap crossings k.bridges ∙ (h.paired ∙ sym (ap length k.tags));
    } in
    let parts = build_parts-Marks w a s.0 r.0 s.1 in
    let after = watched w a r.0 q.1 (build_parts w a s.0 r.0 s.1) in
    let m = not (is_empty r.0.tailing_sing) in
    let marks : Marks m s.1 after =
      Marks-then m s.1 (build_parts w a s.0 r.0 s.1) after parts
        (watched-Marks w a r.0 q.1 (build_parts w a s.0 r.0 s.1)) in
    let crossed : r.1.xray_to_sing_transitioned ≡ m =
      (u.flag ∙ k.flag)
      ∙ (flag ∙ (sym (ap not k.alike.tailing) ∙ sym (ap (λ l. not (is_empty l)) u.tail))) in
    if_rule Paired (q.0.error == "") after q.0
      (both m q.0 r.1 s.1 after s.0 paired u.bridges u.tags crossed
        (bridge_out-Crosses d a.xray_to_sing_port r.0 r.1) marks)
      paired

no_error : (e c : String) → ((if e == "" then c else e) == "") ≡ true → e ≡ ""
no_error e c h = elim (Bool-cases (e == "")) [
  | inl none_there ↦ (eq_iff e "").0 none_there
  | inr some_there ↦
      let same : (if e == "" then c else e) ≡ e = rw some_there refl in
      (eq_iff e "").0 (sym (ap (λ x. x == "") same) ∙ h)
]

-- However a chain is built, with errors or without, as many bridges from Xray lead back into chains
-- after it as there are ingresses for them, if that was so before.
pub build_outbound_chain-Paired :
    (w : World) (d : Draws) (a : ChainArgs) (ids : List ℤ) (ctx : Context)
    → Paired ctx
    → Paired (build_outbound_chain w d a ids ctx)
unfolding build_outbound_chain
build_outbound_chain-Paired w d a ids ctx h =
    let q = ent_list w ids in
    let scanned = scanned_context q ctx in
    if_split Paired (scanned.error == "") (build_ents w d a q.0.ents scanned) scanned
      (λ t.
        build_ents-Paired w d a q.0.ents scanned
          (ent_list-Sorted w ids (no_error q.1 ctx.error t)).back_to_sing
          (record { paired = h.paired }))
      (λ t. record { paired = h.paired })

credit_wrapper-Paired : (o : Option ℤ) (ctx : Context) → Paired ctx → Paired (credit_wrapper o ctx)
credit_wrapper-Paired none ctx h = h
credit_wrapper-Paired (some id) ctx h = record { paired = h.paired }

build_route_chains-Paired :
    (w : World) (draws : ℕ → Draws) (n suffix : ℕ) (gs : List RouteGroup) (ctx : Context)
    → Paired ctx
    → Paired (build_route_chains w draws n suffix gs ctx)
unfolding build_route_chains
build_route_chains-Paired w draws n suffix [] ctx h = h
build_route_chains-Paired w draws n suffix (g ∷ gs) ctx h =
    build_route_chains-Paired w draws (suc n) (suffix + length g.hop_ids) gs _ (
      credit_wrapper-Paired g.chain_wrapper _
        (build_outbound_chain-Paired w (draws n) (route_args g suffix) g.hop_ids ctx h))

build_chains-Paired :
    (w : World) (draws : ℕ → Draws) (v : Wanted) (hops : List ℤ) (ctx : Context)
    → Paired ctx
    → Paired (build_chains w draws v hops ctx)
unfolding build_chains
build_chains-Paired w draws v hops ctx h = build_route_chains-Paired w draws 1 0 v.route_groups _ (
    credit_wrapper-Paired (wrapper v.ent) _
      (build_outbound_chain-Paired w (draws 0) (own_args v) hops ctx h))

length-crossings : (bs : List Bridge) → length bs ≡ crossings bs + loopback_count bs
length-crossings [] = refl
length-crossings (b ∷ bs) = ground (arith, length-crossings bs)

close_section-error :
    (w : World) (ctx : Context) → Paired ctx → (close_section w ctx).error ≡ ctx.error
unfolding close_section
close_section-error w ctx h =
    let even : nat_eq (length ctx.xray_to_sing_bridges - loopback_count ctx.xray_to_sing_bridges)
          (length ctx.sing_ingress_tags)
        ≡ true =
      ground (arith, length-crossings ctx.xray_to_sing_bridges, h.paired) in
    rw even refl

-- The section never finds that its bridges and its ingresses do not match, if they match before it:
-- with the group and the hops of the profile there, its error is that of its chains, whatever those are.
pub build_outbounds_section-error :
    (w : World) (draws : ℕ → Draws) (v : Wanted) (g : Group) (hops : List ℤ) (ctx : Context)
    → v.find_group v.ent.gid ≡ some g
    → own_hops v g ≡ some hops
    → Paired ctx
    → (build_outbounds_section w draws v ctx).error ≡ (build_chains w draws v hops ctx).error
unfolding build_outbounds_section
build_outbounds_section-error w draws v g hops ctx found listed h =
    rw (found, build_outbounds_section, listed)
      (close_section-error w (build_chains w draws v hops ctx)
        (build_chains-Paired w draws v hops ctx h))
