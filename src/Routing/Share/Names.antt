-- ===== src/Routing/Share/Names.antt =====
-- The names that a raw profile is exported with (src/database/entities/RouteProfile.cpp).
use text.Mathlib.TextEquality.{eq_iff}
use free_link_app.Common.{
  ℤ, String, String_eq, ℤ_eq, ◌≡◌, refl, ap, ◌∙◌, Bool, true, false, ◌||◌, Option, none, some, List,
  [], ◌∷◌, ◌==◌, contains, is_negative, arith, if◌then◌else◌, Bool-cases, Option-cases, inl, inr,
  int_eq_iff, beq_refl,
}
use free_link_app.Qt.{Qt}
use free_link_app.Json.{Json, str, Fields, end, set_key, get_key, get_key-set_key, text_at}
use free_link_app.Routing.Profiles.{Profiles}
use free_link_app.Routing.Raw.{local_id, local_warning}
use free_link_app.Routing.Raw.Landing.{landed, Lands}
use free_link_app.Routing.Share.{outbound_names}

if_or :
    (a b : Bool) (s t : Option Json)
    → (if a then s else (if b then s else t)) ≡ (if b || a then s else t)
if_or true true s t = refl
if_or true false s t = refl
if_or false true s t = refl
if_or false false s t = refl

module _ (q : Qt) (p : Profiles) (x : ℤ) (name : String) where
  -- The map with the name of one more id.
  abbrev put_name : ℤ → Fields → Fields
  put_name y o =
      if is_negative y
      then o
      else elim (p.profile_name y) [ none ↦ o | some n ↦ set_key (q.number y) (str n) o ]

  get_key-put_own :
      (o : Fields)
      → is_negative x ≡ false
      → p.profile_name x ≡ some name
      → get_key (q.number x) (put_name x o) ≡ some (str name)
  get_key-put_own o n e =
      rw (n, e, get_key-set_key (q.number x) (q.number x) (str name) o, beq_refl (q.number x)) refl

  get_key-put_other :
      (y : ℤ) (o : Fields)
      → (q.number y == q.number x) ≡ false
      → get_key (q.number x) (put_name y o) ≡ get_key (q.number x) o
  get_key-put_other y o d = elim (Bool-cases (is_negative y)) [
    | inl n ↦ rw n refl
    | inr n ↦ elim (Option-cases (p.profile_name y)) [
      | inl e ↦ rw (n, e) refl
      | inr (m, e) ↦ rw (n, e, get_key-set_key (q.number x) (q.number y) (str m) o, d) refl
    ]
  ]

  get_key-put_name :
      (y : ℤ) (o : Fields)
      → is_negative x ≡ false
      → p.profile_name x ≡ some name
      → (q.number y ≡ q.number x → y ≡ x)
      → get_key (q.number x) (put_name y o)
        ≡ (if y == x then some (str name) else get_key (q.number x) o)
  get_key-put_name y o n e inj = elim (Bool-cases (y == x)) [
    | inl same ↦ rw same (
        ap (λ z. get_key (q.number x) (put_name z o)) ((int_eq_iff y x).0 same)
        ∙ get_key-put_own o n e)
    | inr differs ↦
        let apart : (q.number y == q.number x) ≡ false =
          ground (arith, eq_iff (q.number y) (q.number x), int_eq_iff y x) in
        rw differs (get_key-put_other y o apart)
  ]

  get_key-outbound_names :
      (ids : List ℤ) (o : Fields)
      → is_negative x ≡ false
      → p.profile_name x ≡ some name
      → ((y : ℤ) → contains ids y ≡ true → q.number y ≡ q.number x → y ≡ x)
      → get_key (q.number x) (outbound_names q p ids o)
        ≡ (if contains ids x then some (str name) else get_key (q.number x) o)
  unfolding outbound_names
  get_key-outbound_names [] o n e inj = refl
  get_key-outbound_names (y ∷ ys) o n e inj =
      get_key-outbound_names ys (put_name y o) n e (λ z c. inj z (ground arith))
      ∙ rw (get_key-put_name y o n e (inj y (ground (arith, beq_refl y))))
          (if_or (contains ys x) (y == x) (some (str name)) (get_key (q.number x) o))

-- The profiles among some ids are written as different numbers, have names here, and are found under
-- them on the importing machine where they are meant to land.
pub record NamedOnBoth (q : Qt) (p p' : Profiles) (land : ℤ → ℤ) (ids : List ℤ) : Type 0 where
  pub apart :
      (x y : ℤ) → contains ids x ≡ true → contains ids y ≡ true → q.number y ≡ q.number x → y ≡ x
  pub named :
      (x : ℤ)
      → contains ids x ≡ true
      → is_negative x ≡ false
      → (name : String) × (p.profile_name x ≡ some name)
        × ((name == "") ≡ false)
        × (p'.id_of_name name ≡ some (land x))

module _ (q : Qt) (p p' : Profiles) (land : ℤ → ℤ) where
  landed_by_name :
      (names : Fields) (x : ℤ) (name : String)
      → is_negative x ≡ false
      → get_key (q.number x) names ≡ some (str name)
      → (name == "") ≡ false
      → p'.id_of_name name ≡ some (land x)
      → (local_id q p' names x ≡ landed land x) × (local_warning q p' names x ≡ [])
  unfolding local_id local_warning
  landed_by_name names x name n k e f =
      let told : text_at (q.number x) names ≡ name = rw (k, text_at) refl in
      (rw (n, told, e, f) refl, rw (n, told, e, f) refl)

  stays :
      (names : Fields) (x : ℤ)
      → is_negative x ≡ true
      → (local_id q p' names x ≡ landed land x) × (local_warning q p' names x ≡ [])
  unfolding local_id local_warning
  stays names x n = (rw n refl, rw n refl)

  -- With the exported names each id that the route refers to lands.
  pub outbound_names-Lands :
      (ids : List ℤ)
      → NamedOnBoth q p p' land ids
      → Lands q p' (outbound_names q p ids end) land ids
  unfolding get_key
  outbound_names-Lands ids h x c = elim (Bool-cases (is_negative x)) [
    | inl n ↦ stays (outbound_names q p ids end) x n
    | inr n ↦
        let (name, here, some_name, there) = h.named x c n in
        let found = get_key-outbound_names q p x name ids end n here (λ y d. h.apart x y c d) in
        landed_by_name (outbound_names q p ids end) x name n (rw c at found) some_name there
  ]
