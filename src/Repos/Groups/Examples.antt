-- ===== src/Repos/Groups/Examples.antt =====
-- The repository of groups on small inputs (src/database/GroupsRepo.cpp).
use Prim.Native.Char.{code}
use Prim.Native.String as Native
use free_link_app.Common.{
  ℕ, zero, suc, ℤ, pos, negsuc, String, ◌≡◌, refl, sym, ap, ◌∙◌, Bool, Bool-cases, inl, inr, true,
  false, none, some, List, [], ◌∷◌, nat_eq, if◌then◌else◌, ◌==◌, String_eq,
}
use text.Mathlib.TextEquality.{eq_iff}
use free_link_app.Repos.Groups.{Group, new_group, GroupsRepo, IntLists}
use free_link_app.Repos.Groups.Shelf.{
  Shelf, specified_answers, adds, gets, updates, deletes, restarts, told, got,
}
use free_link_app.Repos.Groups.Represents.{Represents}
use free_link_app.Repos.Groups.Refines.{answers, answers-specified}

-- A text of numbers: "+11-1]" stands for 2 and -2.
strokes : ℕ → String → String
strokes zero s = s
strokes (suc n) s = Native.◌∷◌ "1" (strokes n s)

print_strokes : List ℤ → String
print_strokes [] = "]"
print_strokes (pos n ∷ l) = Native.◌∷◌ "+" (strokes n (print_strokes l))
print_strokes (negsuc n ∷ l) = Native.◌∷◌ "-" (strokes n (print_strokes l))

-- The numbers of a text, and the strokes before the first sign.
parse_strokes : String → List ℤ × ℕ
parse_strokes Native.[] = ([], 0)
parse_strokes (Native.◌∷◌ c s) =
    let (l, n) = parse_strokes s in
    if nat_eq (code c) 49
    then (l, suc n)
    else if nat_eq (code c) 43
    then (pos n ∷ l, 0)
    else if nat_eq (code c) 45
    then (negsuc n ∷ l, 0)
    else (l, n)

parse-strokes :
    (n : ℕ) (s : String) (l : List ℤ)
    → parse_strokes s ≡ (l, 0)
    → parse_strokes (strokes n s) ≡ (l, n)
unfolding strokes parse_strokes
parse-strokes zero s l h = h
parse-strokes (suc n) s l h = rw (parse-strokes n s l h) refl

parse-print_strokes : (l : List ℤ) → parse_strokes (print_strokes l) ≡ (l, 0)
unfolding print_strokes parse_strokes
parse-print_strokes [] = refl
parse-print_strokes (pos n ∷ l) =
    rw (parse-strokes n (print_strokes l) l (parse-print_strokes l)) refl
parse-print_strokes (negsuc n ∷ l) =
    rw (parse-strokes n (print_strokes l) l (parse-print_strokes l)) refl

abbrev begins : String → Bool
begins Native.[] = false
begins (Native.◌∷◌ c s) = true

begins-some : (s : String) → begins s ≡ true → (s == "") ≡ false
begins-some s h = elim (Bool-cases (s == "")) [
  | inl e ↦
      let same : s ≡ "" = (eq_iff s "").0 e in
      let b : begins "" ≡ true = ap begins (sym same) ∙ h in cc
  | inr e ↦ e
]

print_strokes_some : (l : List ℤ) → (print_strokes l == "") ≡ false
unfolding print_strokes
print_strokes_some [] = begins-some "]" refl
print_strokes_some (pos n ∷ l) = begins-some (print_strokes (pos n ∷ l)) refl
print_strokes_some (negsuc n ∷ l) = begins-some (print_strokes (negsuc n ∷ l)) refl

abbrev strokes_lists : IntLists
strokes_lists = record {
  print_ints = print_strokes;
  parse_ints = λ s. some (parse_strokes s).0;
  print_some = print_strokes_some;
  parse-print = λ l. ap (λ p. some p.0) (parse-print_strokes l);
}

abbrev empty_repo : GroupsRepo
empty_repo = record { heap = []; mem_map = []; rows = []; order = []; last_id = 0 }

abbrev empty_shelf : Shelf
empty_shelf = record { groups = λ id. none; last_id = 0 }

empty_repo-Represents : Represents strokes_lists empty_repo empty_shelf
empty_repo-Represents = record {
  valid = record {
    cached = λ id p h. cc;
    stored = λ id row h. cc;
    fresh = λ n h. (refl, refl);
    positive = λ n. (refl, refl);
  };
  shown = λ j. refl;
  last = refl;
}

abbrev renamed : Group → Group
renamed g = record g { name = "work"; profiles = pos 7 ∷ negsuc 1 ∷ [] }

-- A group is added, edited, read after a restart, and deleted.
answers-specified_example :
    answers strokes_lists
      (adds new_group
        ∷ updates (pos 1) renamed
        ∷ restarts
        ∷ gets (pos 1)
        ∷ deletes (pos 1)
        ∷ gets (pos 1)
        ∷ [])
      empty_repo
    ≡ told true
      ∷ told true
      ∷ told true
      ∷ got (some (record (renamed new_group) { id = pos 1 }))
      ∷ told true
      ∷ got none
      ∷ []
unfolding specified_answers
answers-specified_example =
    answers-specified strokes_lists
      (adds new_group
        ∷ updates (pos 1) renamed
        ∷ restarts
        ∷ gets (pos 1)
        ∷ deletes (pos 1)
        ∷ gets (pos 1)
        ∷ [])
      empty_repo empty_shelf empty_repo-Represents
