-- ===== src/Config/Outbounds/Marks.antt =====
-- What a chain does to the ingresses and the bridges of a context (src/configs/generate.cpp).
use free_link_app.Common.{
  is_empty, ℕ, suc, ℤ_eq, String, ◌<>◌, String_eq, ◌≡◌, refl, ap, ◌∙◌, Bool, true, false, not, ◌&&◌,
  List, [], ◌∷◌, ◌++◌, ◌==◌, if◌then◌else◌, length, arith, if_rule, if_split,
}
use free_link_app.Json.{Fields}
use free_link_app.Config.Context.{Bridge, Hop, Context, World}
use free_link_app.Config.Hops.{Parts}
use free_link_app.Config.Chain.{
  Chaining, mark, add_object, sing_tag, build_singbox_chain, is_first, mark_xray, xray_tag,
  build_xray_chain,
}
use free_link_app.Config.Outbounds.{ChainArgs, first_args, tail_args, watched, build_parts}

-- The bridges that lead back into a chain, and the ingresses
abbrev pub crossings : List Bridge → ℕ
crossings [] = 0
crossings (b ∷ bs) = let n = crossings bs in if b.loopback_protect then n else suc n

pub crossings-snoc :
    (bs : List Bridge) (b : Bridge)
    → crossings (bs ++ b ∷ []) ≡ (if b.loopback_protect then crossings bs else suc (crossings bs))
crossings-snoc [] b = refl
crossings-snoc (c ∷ bs) b = ground (arith, crossings-snoc bs b)

-- The context keeps its bridges, and has one ingress more, where `m` says so.
pub record Marks (m : Bool) (ctx after : Context) : Type 0 where
  pub bridges : after.xray_to_sing_bridges ≡ ctx.xray_to_sing_bridges
  pub ingresses :
      length after.sing_ingress_tags
      ≡ (if m then suc (length ctx.sing_ingress_tags) else length ctx.sing_ingress_tags)

pub quiet : (ctx : Context) → Marks false ctx ctx
quiet ctx = record { bridges = refl; ingresses = refl }

pub Marks-then : (m : Bool) (a b c : Context) → Marks m a b → Marks false b c → Marks m a c
Marks-then m a b c p q = record {
  bridges = q.bridges ∙ p.bridges;
  ingresses = q.ingresses ∙ p.ingresses;
}

build_xray_chain-Marks :
    (w : World) (c : Chaining) (b : Bridge) (idx : ℕ) (ents : List Hop) (ctx : Context)
    → Marks false ctx (build_xray_chain w c b idx ents ctx)
unfolding build_xray_chain
build_xray_chain-Marks w c b idx [] ctx =
    if_rule (Marks false ctx) b.needed _ _ (record { bridges = refl; ingresses = refl }) (quiet ctx)
build_xray_chain-Marks w c b idx (ent ∷ ents) ctx =
    let here : Marks false ctx (mark_xray (xray_tag w c idx) (is_first idx) ctx) =
      if_rule (Marks false ctx) (is_first idx) _ _ (record { bridges = refl; ingresses = refl })
        (quiet ctx) in
    if_rule (Marks false ctx) (ent.build_xray.1 == "") _ _
      (Marks-then false ctx _ _ (record { bridges = here.bridges; ingresses = here.ingresses })
        (build_xray_chain-Marks w c b (suc idx) ents _))
      (record { bridges = here.bridges; ingresses = here.ingresses })

add_object-Marks : (ent : Hop) (o : Fields) (ctx : Context) → Marks false ctx (add_object ent o ctx)
add_object-Marks ent o ctx =
    if_rule (Marks false ctx) ent.is_endpoint _ _ (record { bridges = refl; ingresses = refl })
      (record { bridges = refl; ingresses = refl })

pub length-snoc : {A : Type 0} (l : List A) (x : A) → length (l ++ x ∷ []) ≡ suc (length l)
length-snoc [] x = refl
length-snoc (y ∷ l) x = ap suc (length-snoc l x)

mark-Marks : (tag : String) (m : Bool) (ctx : Context) → Marks m ctx (mark tag m ctx)
mark-Marks tag true ctx = record {
  bridges = refl;
  ingresses = length-snoc ctx.sing_ingress_tags tag;
}
mark-Marks tag false ctx = quiet ctx

marked_first : (m : Bool) (ctx after : Context) → Marks (m && true) ctx after → Marks m ctx after
marked_first true ctx after h = h
marked_first false ctx after h = h

unmarked : (m : Bool) (ctx after : Context) → Marks (m && false) ctx after → Marks false ctx after
unmarked true ctx after h = h
unmarked false ctx after h = h

-- One hop, with what the hops behind it do.
hop-Marks :
    (m : Bool) (tag : String) (ent : Hop) (object : Fields) (ctx rest : Context)
    → Marks false (add_object ent object (mark tag m ctx)) rest
    → Marks m ctx (
        let marked = mark tag m ctx in
        let error = (ent.build ent.bridge).1 in
        if error == "" then rest else record marked { error = marked.error <> error })
hop-Marks m tag ent object ctx rest h =
    let marked = mark tag m ctx in
    let here = mark-Marks tag m ctx in
    let added = Marks-then m ctx marked _ here (add_object-Marks ent object marked) in
    if_rule (Marks m ctx) ((ent.build ent.bridge).1 == "") _ _ (Marks-then m ctx _ rest added h)
      (record { bridges = here.bridges; ingresses = here.ingresses })

later-Marks :
    (w : World) (c : Chaining) (idx : ℕ) (ents : List Hop) (ctx : Context)
    → Marks false ctx (build_singbox_chain w c (suc idx) ents ctx)
unfolding build_singbox_chain
later-Marks w c idx [] ctx = quiet ctx
later-Marks w c idx (ent ∷ ents) ctx = unmarked c.mark_ingress ctx _ (
    hop-Marks (c.mark_ingress && false) (sing_tag w c (suc idx)) ent _ ctx _
      (later-Marks w c (suc idx) ents _))

-- A chain of sing-box has one ingress, where it is marked.
build_singbox_chain-Marks :
    (w : World) (c : Chaining) (ents : List Hop) (ctx : Context)
    → is_empty ents ≡ false
    → Marks c.mark_ingress ctx (build_singbox_chain w c 0 ents ctx)
unfolding build_singbox_chain
build_singbox_chain-Marks w c [] ctx some_hop = cc
build_singbox_chain-Marks w c (ent ∷ ents) ctx some_hop =
    marked_first c.mark_ingress ctx _
      (hop-Marks (c.mark_ingress && true) (sing_tag w c 0) ent _ ctx _ (later-Marks w c 0 ents _))

tail_Marks :
    (w : World) (a : ChainArgs) (sing tail : List Hop) (second ctx : Context)
    → Marks false ctx second
    → Marks (not (is_empty tail)) ctx (
        if is_empty tail
        then second
        else build_singbox_chain w (tail_args a (length sing)) 0 tail second)
tail_Marks w a sing [] second ctx h = h
tail_Marks w a sing (ent ∷ ents) second ctx h =
    let m = build_singbox_chain-Marks w (tail_args a (length sing)) (ent ∷ ents) second refl in
    record { bridges = m.bridges ∙ h.bridges; ingresses = m.ingresses ∙ ap suc h.ingresses }

pub build_parts-Marks :
    (w : World) (a : ChainArgs) (b : Bridge) (p : Parts) (ctx : Context)
    → Marks (not (is_empty p.tailing_sing)) ctx (build_parts w a b p ctx)
unfolding build_parts
build_parts-Marks w a b p ctx =
    let first_ctx =
      if is_empty p.initial_sing
      then ctx
      else build_singbox_chain w (first_args a) 0 p.initial_sing ctx in
    let first : Marks false ctx first_ctx =
      if_split (Marks false ctx) (is_empty p.initial_sing) ctx
        (build_singbox_chain w (first_args a) 0 p.initial_sing ctx) (λ e. quiet ctx)
        (build_singbox_chain-Marks w (first_args a) p.initial_sing ctx) in
    let second : Marks false _ _ =
      if_rule (Marks false first_ctx) (is_empty p.xray) first_ctx
        (build_xray_chain w (first_args a) b 0 p.xray first_ctx) (quiet first_ctx)
        (build_xray_chain-Marks w (first_args a) b 0 p.xray first_ctx) in
    tail_Marks w a p.initial_sing p.tailing_sing _ ctx
      (Marks-then false ctx first_ctx _ first second)

pub watched-Marks :
    (w : World) (a : ChainArgs) (p : Parts) (ents : List Hop) (ctx : Context)
    → Marks false ctx (watched w a p ents ctx)
watched-Marks w a p [] ctx = quiet ctx
watched-Marks w a p (ent ∷ ents) ctx = record { bridges = refl; ingresses = refl }
