-- ===== src/Subscription/Disect.antt =====
-- Disect and JsonEndIdx (src/configs/sub/GroupUpdater.cpp): a text of many lines is taken apart. The
-- index into the text is the text that is left.
pub mod Pieces
use Prim.Native.Char.{Char, code}
use Prim.Native.String as Native
use free_link_app.Common.{
  ℕ, zero, suc, ◌+◌, ◌-◌, String, Bool, Option, none, some, List, [], ◌∷◌, nat_eq, if◌then◌else◌,
}
use free_link_app.Text.{newline, extend}

abbrev pub open_brace : ℕ
open_brace = 123

abbrev pub close_brace : ℕ
close_brace = 125

-- The counter of JsonEndIdx behind a character.
abbrev pub counted : ℕ → ℕ → ℕ
counted counter c =
    if nat_eq c open_brace
    then counter + 1
    else if nat_eq c close_brace
    then counter - 1
    else counter

-- JsonEndIdx: the text up to the brace at which the counter is 0, and what is behind it.
unfoldable pub json_end : ℕ → String → Option (String × String)
json_end counter Native.[] = none
json_end counter (Native.◌∷◌ c s) =
    let now = counted counter (code c) in
    let rest = json_end now s in if nat_eq now 0 then some (Native.◌∷◌ c "", s) else extend c rest

-- The text up to the line's end, and what is behind it.
unfoldable pub line : String → String × String
line Native.[] = ("", "")
line (Native.◌∷◌ c s) =
    let rest = line s in if nat_eq (code c) newline then ("", s) else (Native.◌∷◌ c rest.0, rest.1)

abbrev pub add_piece : String → Option (List String) → Option (List String)
add_piece p none = none
add_piece p (some ps) = some (p ∷ ps)

-- An object and the pieces behind it; nothing more behind a brace that is not closed.
abbrev pub objects :
    Char → Option (String × String) → (String → Option (List String)) → Option (List String)
objects c none behind = some []
objects c (some (o, r)) behind = add_piece (Native.◌∷◌ c o) (behind r)

-- The loop of Disect; `none` is a loop that the fuel does not reach the end of.
unfoldable pub disect : ℕ → String → Option (List String)
disect zero s = none
disect (suc fuel) Native.[] = some []
disect (suc fuel) (Native.◌∷◌ c s) =
    let skipped = disect fuel s in
    let lines = add_piece (line (Native.◌∷◌ c s)).0 (disect fuel (line (Native.◌∷◌ c s)).1) in
    let found = objects c (json_end 1 s) (disect fuel) in
    if nat_eq (code c) newline then skipped else if nat_eq (code c) open_brace then found else lines
