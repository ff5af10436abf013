-- ===== src/Subscription/Raw/Ends.antt =====
-- A subscription is read to its end (src/configs/sub/GroupUpdater.cpp, RawUpdater::update).
use Prim.Native.String as Native
use free_link_app.Common.{
  ℕ, zero, suc, ◌+◌, ◌*◌, ◌≤◌, ◌<◌, ◌≡◌, refl, ap, String, String_eq, Bool, true, false, not, ◌&&◌,
  Option, none, some, List, [], ◌∷◌, ◌++◌, ◌==◌, if◌then◌else◌, All, All-map, arith, if_split,
}
use free_link_app.Routing.Share.{Document}
use free_link_app.Subscription.Disect.{disect}
use free_link_app.Subscription.Disect.Pieces.{size, size-glue, Pieces, disect-Gives}
use free_link_app.Subscription.Raw.{Parsers, each, all_lines, document_or, has_newline, update}

-- Base64 is longer than what it encodes, and trimming only takes away.
pub record Shrinks {A : Type 0} (p : Parsers A) : Type 0 where
  pub decoded : (s : String) → (p.decode_b64 s == "") ≡ false → size (p.decode_b64 s) < size s
  pub trims : (s : String) → size (p.trimmed s) ≤ size s

abbrev IsWithin : String → String → Type 0
IsWithin s l = size l ≤ size s

Pieces-IsWithin : (s : String) (ps : List String) → Pieces s ps → All (IsWithin s) ps
Pieces-IsWithin _ _ Pieces.over = tt
Pieces-IsWithin _ ps (Pieces.skip c {s} e g) =
    All-map (IsWithin s) _ ps (Pieces-IsWithin s ps g) (λ l h. omega arith)
Pieces-IsWithin s _ (Pieces.object o r {ps = ps} e i g) =
    let total = ap size e in
    (
      omega (arith, total, size-glue o r),
      All-map (IsWithin r) (IsWithin s) ps (Pieces-IsWithin r ps g)
          (λ l h. omega (arith, total, size-glue o r)),
    )
Pieces-IsWithin s _ (Pieces.row l r c {ps = ps} e n i g) =
    let total = ap size e in
    (
      omega (arith, total, size-glue l (Native.◌∷◌ c r)),
      All-map (IsWithin r) (IsWithin s) ps (Pieces-IsWithin r ps g)
          (λ l' h. omega (arith, total, size-glue l (Native.◌∷◌ c r))),
    )
Pieces-IsWithin _ _ (Pieces.last_row l i) = (omega arith, tt)
Pieces-IsWithin _ _ (Pieces.torn c s e n) = tt

module _ {A : Type 0} where
  abbrev pub Returns : Option (List A) → Type 0
  Returns o = (ents : List A) × (o ≡ some ents)

  each-Returns :
      (f : String → Option (List A)) (ls : List String)
      → All (λ l. Returns (f l)) ls
      → Returns (each f ls)
  each-Returns f [] h = ([], refl)
  each-Returns f (l ∷ ls) ((xs, e), h) =
      let (ys, g) = each-Returns f ls h in (xs ++ ys, rw (e, each, g) refl)

module _ {A : Type 0} (p : Parsers A) (shrinks : Shrinks p) where
  lines-Returns :
      (s : String) (f : String → Option (List A))
      → ((l : String) → size l ≤ size s → Returns (f l))
      → Returns (all_lines f (disect (suc (size s)) s))
  lines-Returns s f h =
      let (ls, e, g) = disect-Gives (suc (size s)) s (omega arith) in
      rw e (each-Returns f ls (All-map (IsWithin s) _ ls (Pieces-IsWithin s ls g) h))

  document-Returns :
      (f : Document → List A) (o : Option Document) (other : Option (List A))
      → Returns other
      → Returns (document_or f o other)
  document-Returns f none other h = h
  document-Returns f (some doc) other h = (f doc, refl)

  -- Base64 in base64 is decoded and lines are read for ever shorter texts, so with twice as much fuel
  -- as characters, and two more, the text of a subscription is read to its end.
  pub update-Returns :
      (fuel : ℕ) (s : String) (need_parse decoded : Bool)
      → 2 * size s + (if need_parse then 1 else 0) < fuel
      → Returns (update p fuel s need_parse decoded)
  unfolding update
  update-Returns zero s need_parse decoded h = absurd (omega arith)
  update-Returns (suc fuel) s need_parse decoded h =
      if_split Returns (not decoded && not (p.decode_b64 s == "")) _ _
        (λ again.
          let shorter = shrinks.decoded s (ground arith) in
          update-Returns fuel (p.decode_b64 s) true true (ground arith))
        (λ no. document-Returns _ (p.parse_json s) _ (
          if_split Returns (p.text_contains s "proxies:") _ _ (λ _. (_, refl))
            (λ _.
              if_split Returns (p.text_contains s "[Interface]" && p.text_contains s "[Peer]") _ _
                (λ _. (_, refl))
                (λ _.
                  if_split Returns (has_newline s && need_parse) _ _
                    (λ many. lines-Returns s _ (λ l lt.
                      update-Returns fuel (p.trimmed l) false false
                        (ground (arith, shrinks.trims l))))
                    (λ _. (_, refl))))))
