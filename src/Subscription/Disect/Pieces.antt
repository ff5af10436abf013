-- ===== src/Subscription/Disect/Pieces.antt =====
-- What Disect gives (src/configs/sub/GroupUpdater.cpp).
use Prim.Native.Char.{Char, code}
use Prim.Native.String as Native
use free_link_app.Common.{
  ℕ, zero, suc, ◌+◌, ◌<◌, ◌⊎◌, ◌≡◌, refl, ap, String, false, Option, none, some, List, [], ◌∷◌,
  nat_eq, if◌then◌else◌, arith, Option-cases, Bool-cases, inl, inr, if_split,
}
use free_link_app.Text.{newline, glue}
use free_link_app.Subscription.Disect.{
  open_brace, close_brace, counted, json_end, line, add_piece, objects, disect,
}

-- QString::length
abbrev pub size : String → ℕ
size Native.[] = 0
size (Native.◌∷◌ c s) = suc (size s)

-- How often a character stands in a text.
abbrev pub occurs : ℕ → String → ℕ
occurs n Native.[] = 0
occurs n (Native.◌∷◌ c s) = (if nat_eq (code c) n then 1 else 0) + occurs n s

-- An object is a text that begins with a brace and in which as many braces close as open.
pub record IsObject (o : String) : Type 0 where
  pub first : Char
  pub body : String
  pub whole : o ≡ Native.◌∷◌ first body
  pub opened : code first ≡ open_brace
  pub balanced : occurs open_brace o ≡ occurs close_brace o

-- A line is a text with at least one character and no line end.
abbrev pub IsLine : String → Type 0
IsLine l = (occurs newline l ≡ 0) × (0 < size l)

-- The pieces of a text, in order: lines and objects, between line ends. Behind a brace that nothing
-- closes the rest is left out.
pub data Pieces : String → List String → Type 0 where
  over : Pieces "" []
  skip :
      (c : Char) {s : String} {ps : List String}
      → code c ≡ newline
      → Pieces s ps
      → Pieces (Native.◌∷◌ c s) ps
  object :
      (o r : String) {s : String} {ps : List String}
      → s ≡ glue o r
      → IsObject o
      → Pieces r ps
      → Pieces s (o ∷ ps)
  row :
      (l r : String) (c : Char) {s : String} {ps : List String}
      → s ≡ glue l (Native.◌∷◌ c r)
      → code c ≡ newline
      → IsLine l
      → Pieces r ps
      → Pieces s (l ∷ ps)
  last_row : (l : String) → IsLine l → Pieces l (l ∷ [])
  torn :
      (c : Char) (s : String)
      → code c ≡ open_brace
      → json_end 1 s ≡ none
      → Pieces (Native.◌∷◌ c s) []

-- The object that JsonEndIdx ends closes what is open.
abbrev Ends : ℕ → String → String → String → Type 0
Ends n s o r = (s ≡ glue o r) × (n + occurs open_brace o ≡ occurs close_brace o)

counted_closed : (n c : ℕ) → 0 < n → counted n c ≡ 0 → (n ≡ 1) × (c ≡ close_brace)
counted_closed n c h e = ground arith

counted_open :
    (n c a b : ℕ)
    → 0 < n
    → counted n c + a ≡ b
    → n + ((if nat_eq c open_brace then 1 else 0) + a) ≡ (if nat_eq c close_brace then 1 else 0) + b
counted_open n c a b h e = ground arith

json_end_lem : (n : ℕ) (s o r : String) → 0 < n → json_end n s ≡ some (o, r) → Ends n s o r
unfolding json_end glue
json_end_lem n Native.[] o r h e = cc
json_end_lem n (Native.◌∷◌ c s) o r h e = elim (Bool-cases (nat_eq (counted n (code c)) 0)) [
  | inl closed ↦
      let found : ◌≡◌ {A = Option (String × String)} (some (Native.◌∷◌ c "", s)) (some (o, r)) =
        rw closed at e in
      let o_is : Native.◌∷◌ c "" ≡ o = cc in
      let r_is : s ≡ r = cc in
      let (one, brace) = counted_closed n (code c) h (ground arith) in
      rw (← o_is, ← r_is) (refl, rw (one, brace) refl)
  | inr more ↦ elim (Option-cases (json_end (counted n (code c)) s)) [
    | inl gone ↦
        let found : ◌≡◌ {A = Option (String × String)} none (some (o, r)) = rw (more, gone) at e in
        cc
    | inr ((o', r'), there) ↦
        let found : ◌≡◌ {A = Option (String × String)} (some (Native.◌∷◌ c o', r')) (some (o, r)) =
          rw (more, there) at e in
        let o_is : Native.◌∷◌ c o' ≡ o = cc in
        let r_is : r' ≡ r = cc in
        let (whole, count) = json_end_lem (counted n (code c)) s o' r' (ground arith) there in
        rw (← o_is, ← r_is) (ap (Native.◌∷◌ c) whole, counted_open n (code c) _ _ h count)
  ]
]

pub size-glue : (s t : String) → size (glue s t) ≡ size s + size t
unfolding glue
size-glue Native.[] t = omega arith
size-glue (Native.◌∷◌ c s) t = omega (arith, size-glue s t)

-- A line and what is left: the whole text and nothing, or all up to a line end and all behind it.
abbrev Parted : String → String × String → Type 0
Parted s (l, r) =
    (occurs newline l ≡ 0)
    × (((s ≡ l) × (r ≡ "")) ⊎ ((c : Char) × (code c ≡ newline) × (s ≡ glue l (Native.◌∷◌ c r))))

Parted-cons :
    (c : Char) (s : String) (p : String × String)
    → nat_eq (code c) newline ≡ false
    → Parted s p
    → Parted (Native.◌∷◌ c s) (Native.◌∷◌ c p.0, p.1)
unfolding glue
Parted-cons c s (l, r) goes (free, inl (whole, at_end)) =
    (ground arith, inl (ap (Native.◌∷◌ c) whole, at_end))
Parted-cons c s (l, r) goes (free, inr (d, ends, whole)) =
    (ground arith, inr (d, ends, ap (Native.◌∷◌ c) whole))

line_lem : (s : String) → Parted s (line s)
unfolding line glue
line_lem Native.[] = (refl, inl (refl, refl))
line_lem (Native.◌∷◌ c s) =
    if_split (Parted (Native.◌∷◌ c s)) (nat_eq (code c) newline) ("", s)
      (Native.◌∷◌ c (line s).0, (line s).1) (λ ends. (refl, inr (c, ground arith, refl)))
      (λ goes. Parted-cons c s (line s) goes (line_lem s))

-- A line that does not begin with a line end is not empty.
line_starts :
    (c : Char) (s : String) → nat_eq (code c) newline ≡ false → 0 < size (line (Native.◌∷◌ c s)).0
unfolding line
line_starts c s goes = ground arith

-- Enough fuel gives the pieces of the text.
abbrev pub Gives : Option (List String) → String → Type 0
Gives o s = (ps : List String) × (o ≡ some ps) × Pieces s ps

Gives-add_piece :
    (p : String) (o : Option (List String)) (r s : String)
    → ((ps : List String) → Pieces r ps → Pieces s (p ∷ ps))
    → Gives o r
    → Gives (add_piece p o) s
Gives-add_piece p o r s f (ps, e, g) = (p ∷ ps, ap (add_piece p) e, f ps g)

Gives-objects :
    (c : Char) (s : String) (o : Option (String × String)) (behind : String → Option (List String))
    → code c ≡ open_brace
    → json_end 1 s ≡ o
    → ((r : String) → size r < suc (size s) → Gives (behind r) r)
    → Gives (objects c o behind) (Native.◌∷◌ c s)
unfolding glue
Gives-objects c s none behind brace e f = ([], refl, Pieces.torn c s brace e)
Gives-objects c s (some (o, r)) behind brace e f =
    let (whole, count) = json_end_lem 1 s o r (omega arith) e in
    let shorter : size r < suc (size s) = omega (arith, ap size whole, size-glue o r) in
    let is_object : IsObject (Native.◌∷◌ c o) = record {
      first = c;
      body = o;
      whole = refl;
      opened = brace;
      balanced = ground arith;
    } in
    Gives-add_piece (Native.◌∷◌ c o) (behind r) r (Native.◌∷◌ c s)
      (λ ps g. Pieces.object (Native.◌∷◌ c o) r (ap (Native.◌∷◌ c) whole) is_object g) (f r shorter)

Gives-line :
    (s : String) (p : String × String) (behind : String → Option (List String))
    → Parted s p
    → 0 < size p.0
    → behind "" ≡ some []
    → ((r : String) → size r < size s → Gives (behind r) r)
    → Gives (add_piece p.0 (behind p.1)) s
Gives-line s (l, r) behind (free, inl (whole, at_end)) long at_nothing f =
    (l ∷ [], rw (at_end, at_nothing) refl, rw whole (Pieces.last_row l (free, long)))
Gives-line s (l, r) behind (free, inr (c, ends, whole)) long at_nothing f =
    let shorter : size r < size s = omega (arith, ap size whole, size-glue l (Native.◌∷◌ c r)) in
    Gives-add_piece l (behind r) r s (λ ps g. Pieces.row l r c whole ends (free, long) g)
      (f r shorter)

disect_empty : (fuel : ℕ) → 0 < fuel → disect fuel "" ≡ some []
unfolding disect
disect_empty zero h = absurd (omega arith)
disect_empty (suc fuel) h = refl

pub disect-Gives : (fuel : ℕ) (s : String) → size s < fuel → Gives (disect fuel s) s
unfolding disect
disect-Gives zero s h = absurd (omega arith)
disect-Gives (suc fuel) Native.[] h = ([], refl, Pieces.over)
disect-Gives (suc fuel) (Native.◌∷◌ c s) h =
    if_split (λ o. Gives o (Native.◌∷◌ c s)) (nat_eq (code c) newline) _ _
      (λ ends.
        let (ps, e, p) = disect-Gives fuel s (omega arith) in
        (ps, e, Pieces.skip c (ground arith) p))
      (λ goes.
        if_split (λ o. Gives o (Native.◌∷◌ c s)) (nat_eq (code c) open_brace) _ _
          (λ opens.
            Gives-objects c s (json_end 1 s) (disect fuel) (ground arith) refl
              (λ r lt. disect-Gives fuel r (omega arith)))
          (λ plain.
            Gives-line (Native.◌∷◌ c s) (line (Native.◌∷◌ c s)) (disect fuel)
              (line_lem (Native.◌∷◌ c s)) (line_starts c s goes) (disect_empty fuel (omega arith))
              (λ r lt. disect-Gives fuel r (omega arith))))
