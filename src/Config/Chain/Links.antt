-- ===== src/Config/Chain/Links.antt =====
-- The hops of a chain dial through each other in their order (src/configs/generate.cpp).
use free_link_app.Common.{
  is_empty, ℕ, suc, String, String_eq, ◌≡◌, not, some, List, [], ◌∷◌, ◌++◌, map, keep,
}
use free_link_app.Json.{Json, str, Fields, get_key}
use free_link_app.Config.Context.{Hop, Context, World}
use free_link_app.Config.Chain.{Chaining, sing_tag, dress_sing}

-- A hop and the object that stands for it
abbrev pub HopRow : Type 0
HopRow = Hop × Fields

abbrev pub endpoint_rows : List HopRow → List Fields
endpoint_rows rows = map (λ r. r.1) (keep (λ r. r.0.is_endpoint) rows)

abbrev pub outbound_rows : List HopRow → List Fields
outbound_rows rows = map (λ r. r.1) (keep (λ r. not r.0.is_endpoint) rows)

-- Each hop dials through the one behind it.
abbrev pub Linked : List HopRow → Type 0
Linked [] = Unit
Linked (r ∷ []) = Unit
Linked (r ∷ next ∷ rows) = (get_key "detour" r.1 ≡ get_key "tag" next.1) × Linked (next ∷ rows)

-- The first hop has this tag.
abbrev pub Heads : String → List HopRow → Type 0
Heads tag [] = Unit
Heads tag (r ∷ rows) = get_key "tag" r.1 ≡ some (str tag)

abbrev pub Builds : Hop → Type 0
Builds ent = (ent.build ent.bridge).1 ≡ ""

rows_of : World → Chaining → ℕ → List Hop → List HopRow
rows_of w c idx [] = []
rows_of w c idx (ent ∷ ents) =
    (ent, dress_sing w c idx (not (is_empty ents)) (ent.build ent.bridge).0)
    ∷ rows_of w c (suc idx) ents

-- The context has got these objects and no error.
pub record Adds (rows : List HopRow) (ctx after : Context) : Type 0 where
  pub outbounds : after.outbounds ≡ ctx.outbounds ++ outbound_rows rows
  pub endpoints : after.endpoints ≡ ctx.endpoints ++ endpoint_rows rows
  pub error : after.error ≡ ctx.error

-- The objects of a chain of sing-box: one for each hop, in order, each dialling through the next.
pub record Chained (w : World) (c : Chaining) (ents : List Hop) (ctx after : Context) : Type 0 where
  pub rows : List HopRow
  pub hops : map (λ r. r.0) rows ≡ ents
  pub linked : Linked rows
  pub heads : Heads (sing_tag w c 0) rows
  pub adds : Adds rows ctx after
