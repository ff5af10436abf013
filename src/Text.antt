-- ===== src/Text.antt =====
-- Texts as sequences of characters: what the routing code does with the lines of its editor.
use Prim.Native.Char.{Char, code}
use Prim.Native.String as Native
use free_link_app.Common.{
  ℕ, ◌≡◌, refl, ap, ◌∙◌, String, Bool, true, false, ◌&&◌, nat_eq, Option, none, some, List, ◌∷◌, [],
  if◌then◌else◌, Bool-cases, inl, inr,
}

-- QString::startsWith
unfoldable pub starts_with : String → String → Bool
starts_with s Native.[] = true
starts_with Native.[] (Native.◌∷◌ d t) = false
starts_with (Native.◌∷◌ c s) (Native.◌∷◌ d t) = nat_eq (code c) (code d) && starts_with s t

abbrev pub colon : ℕ
colon = 58

abbrev pub newline : ℕ
newline = 10

abbrev pub extend : Char → Option (String × String) → Option (String × String)
extend c none = none
extend c (some (l, v)) = some (Native.◌∷◌ c l, v)

-- What stands before and behind the first colon (QString::indexOf, left, mid, section).
unfoldable pub cut : String → Option (String × String)
cut Native.[] = none
cut (Native.◌∷◌ c s) =
    let rest = cut s in if nat_eq (code c) colon then some ("", s) else extend c rest

-- One line more, or one character more on the first line.
abbrev push : Char → List String → List String
push c [] = Native.◌∷◌ c "" ∷ []
push c (l ∷ ls) = Native.◌∷◌ c l ∷ ls

-- QString::split at line ends
unfoldable pub split_lines : String → List String
split_lines Native.[] = "" ∷ []
split_lines (Native.◌∷◌ c s) =
    let rest = split_lines s in if nat_eq (code c) newline then "" ∷ rest else push c rest

-- The second text behind the first, character by character.
unfoldable pub glue : String → String → String
glue Native.[] t = t
glue (Native.◌∷◌ c s) t = Native.◌∷◌ c (glue s t)

extended :
    (c : Char) (o : Option (String × String)) (s l v : String)
    → ((l' v' : String) → o ≡ some (l', v') → (rest : String) × (s ≡ glue l' rest))
    → extend c o ≡ some (l, v)
    → (rest : String) × (Native.◌∷◌ c s ≡ glue l rest)
unfolding glue
extended c none s l v f h = cc
extended c (some (l', v')) s l v f h =
    let (rest, e) = f l' v' refl in
    let same : Native.◌∷◌ c l' ≡ l = cc in (rest, ap (Native.◌∷◌ c) e ∙ ap (λ t. glue t rest) same)

-- What stands before the colon begins the text.
pub cut-glue : (s l v : String) → cut s ≡ some (l, v) → (rest : String) × (s ≡ glue l rest)
unfolding cut glue
cut-glue Native.[] l v h = cc
cut-glue (Native.◌∷◌ c s) l v h = elim (Bool-cases (nat_eq (code c) colon)) [
  | inl e ↦
      let cut_here : ◌≡◌ {A = Option (String × String)} (some ("", s)) (some (l, v)) = rw e at h in
      let same : "" ≡ l = cc in (Native.◌∷◌ c s, ap (λ t. glue t (Native.◌∷◌ c s)) same)
  | inr e ↦ extended c (cut s) s l v (cut-glue s) (rw e at h)
]
