-- ===== src/Routing/Raw/Collect.antt =====
-- What the ids that `CollectRawOutboundIds` finds are good for (src/database/entities/RouteProfile.cpp).
use free_link_app.Common.{
  ℤ, String, String_eq, ℤ_eq, ◌≡◌, refl, ap, ◌∙◌, true, ◌||◌, Option, none, some, List, [], ◌∷◌,
  ◌++◌, ◌==◌, contains, arith, int_eq_iff, beq_refl,
}
use mathlib.Core.Path.{ap₂}
use free_link_app.Json.{
  Json, null, bool, num, str, arr, obj, Items, nil, cons, Fields, end, field, to_object,
}
use free_link_app.Routing.Raw.{
  reference, append_new, or_else_collect, collect_raw, collect_fields, collect_items,
  collect_raw_outbound_ids, tag_of, map_reference, or_else_keep, translate_raw, translate_fields,
  translate_items, translate_raw_outbounds,
}

contains-append : (x : ℤ) (l m : List ℤ) → contains (l ++ m) x ≡ (contains l x || contains m x)
contains-append x [] m = refl
contains-append x (y ∷ l) m = ground (arith, contains-append x l m)

pub contains-append_new :
    (x id : ℤ) (out : List ℤ) → contains (append_new id out) x ≡ (id == x || contains out x)
contains-append_new x id out = ground (arith, contains-append x out (id ∷ []), int_eq_iff id x)

keeps_reference :
    (x : ℤ) (o : Option ℤ) (out deeper : List ℤ)
    → contains out x ≡ true
    → contains deeper x ≡ true
    → contains (or_else_collect o out deeper) x ≡ true
keeps_reference x none out deeper h g = g
keeps_reference x (some id) out deeper h g = ground (arith, contains-append_new x id out)

-- The ids found so far stay found.
mutual
  unfolding collect_raw

  collect_raw-keeps :
      (x : ℤ) (j : Json) (out : List ℤ)
      → contains out x ≡ true
      → contains (collect_raw j out) x ≡ true
  collect_raw-keeps x (obj o) out h = collect_fields-keeps x o out h
  collect_raw-keeps x (arr vs) out h = collect_items-keeps x vs out h
  collect_raw-keeps x null out h = h
  collect_raw-keeps x (bool b) out h = h
  collect_raw-keeps x (num n) out h = h
  collect_raw-keeps x (str s) out h = h

  pub collect_fields-keeps :
      (x : ℤ) (o : Fields) (out : List ℤ)
      → contains out x ≡ true
      → contains (collect_fields o out) x ≡ true
  collect_fields-keeps x end out h = h
  collect_fields-keeps x (field k v fs) out h =
      collect_fields-keeps x fs (or_else_collect (reference k v) out (collect_raw v out))
        (keeps_reference x (reference k v) out (collect_raw v out) h (collect_raw-keeps x v out h))

  pub collect_items-keeps :
      (x : ℤ) (vs : Items) (out : List ℤ)
      → contains out x ≡ true
      → contains (collect_items vs out) x ≡ true
  collect_items-keeps x nil out h = h
  collect_items-keeps x (cons v vs) out h =
      collect_items-keeps x vs (collect_raw v out) (collect_raw-keeps x v out h)

-- Two maps agree on what was found.
abbrev pub Agree : (ℤ → Option String) → (ℤ → Option String) → List ℤ → Type 0
Agree m n ids = (x : ℤ) → contains ids x ≡ true → m x ≡ n x

value_cong :
    (m n : ℤ → Option String) (o : Option ℤ) (out deeper : List ℤ) (a b : Json)
    → Agree m n (or_else_collect o out deeper)
    → (Agree m n deeper → a ≡ b)
    → or_else_keep (map_reference (tag_of m) o) a ≡ or_else_keep (map_reference (tag_of n) o) b
value_cong m n none out deeper a b h f = f h
value_cong m n (some id) out deeper a b h f =
    ground (arith, h id, contains-append_new id id out, beq_refl id)

mutual
  unfolding translate_raw collect_raw

  translate_raw-cong :
      (m n : ℤ → Option String) (j : Json) (out : List ℤ)
      → Agree m n (collect_raw j out)
      → translate_raw m j ≡ translate_raw n j
  translate_raw-cong m n (obj o) out h = ap obj (translate_fields-cong m n o out h)
  translate_raw-cong m n (arr vs) out h = ap arr (translate_items-cong m n vs out h)
  translate_raw-cong m n null out h = refl
  translate_raw-cong m n (bool b) out h = refl
  translate_raw-cong m n (num i) out h = refl
  translate_raw-cong m n (str s) out h = refl

  translate_fields-cong :
      (m n : ℤ → Option String) (o : Fields) (out : List ℤ)
      → Agree m n (collect_fields o out)
      → translate_fields m o ≡ translate_fields n o
  translate_fields-cong m n end out h = refl
  translate_fields-cong m n (field k v fs) out h =
      ap₂ (field k)
        (value_cong m n (reference k v) out (collect_raw v out) (translate_raw m v)
          (translate_raw n v)
          (λ x c.
            h x (
              collect_fields-keeps x fs (or_else_collect (reference k v) out (collect_raw v out))
                c))
          (λ g. translate_raw-cong m n v out g))
        (translate_fields-cong m n fs (or_else_collect (reference k v) out (collect_raw v out)) h)

  translate_items-cong :
      (m n : ℤ → Option String) (vs : Items) (out : List ℤ)
      → Agree m n (collect_items vs out)
      → translate_items m vs ≡ translate_items n vs
  translate_items-cong m n nil out h = refl
  translate_items-cong m n (cons v vs) out h =
      ap₂ cons
        (translate_raw-cong m n v out (λ x c. h x (collect_items-keeps x vs (collect_raw v out) c)))
        (translate_items-cong m n vs (collect_raw v out) h)

-- Two maps of tags that agree on the ids which are collected from a route translate it alike: the
-- generator may look up the collected ids alone.
pub translate_raw_outbounds-cong :
    (m n : ℤ → Option String) (route : Fields)
    → Agree m n (collect_raw_outbound_ids route)
    → translate_raw_outbounds route m ≡ translate_raw_outbounds route n
unfolding translate_raw_outbounds collect_raw_outbound_ids
translate_raw_outbounds-cong m n route h = ap to_object (translate_raw-cong m n (obj route) [] h)

-- A tag is a text, so it is no reference.
no_reference : (m : ℤ → Option String) (k : String) (id : ℤ) → reference k (tag_of m id) ≡ none
no_reference m k id = ground arith

abbrev translated : (ℤ → Option String) → Option ℤ → Json → Json
translated m o v = or_else_keep (map_reference (tag_of m) o) v

translated-nothing :
    (m : ℤ → Option String) (k : String) (v : Json) (out : List ℤ)
    → collect_raw (translate_raw m v) out ≡ out
    → or_else_collect
        (reference k (translated m (reference k v) (translate_raw m v)))
        out
        (collect_raw (translated m (reference k v) (translate_raw m v)) out)
      ≡ out
unfolding collect_raw translate_raw
translated-nothing m k (obj o) out h = h
translated-nothing m k (arr vs) out h = h
translated-nothing m k null out h = refl
translated-nothing m k (bool b) out h = refl
translated-nothing m k (str s) out h = refl
translated-nothing m k (num id) out h = ground arith

mutual
  unfolding translate_raw collect_raw

  collect-translate_raw :
      (m : ℤ → Option String) (j : Json) (out : List ℤ) → collect_raw (translate_raw m j) out ≡ out
  collect-translate_raw m (obj o) out = collect-translate_fields m o out
  collect-translate_raw m (arr vs) out = collect-translate_items m vs out
  collect-translate_raw m null out = refl
  collect-translate_raw m (bool b) out = refl
  collect-translate_raw m (num i) out = refl
  collect-translate_raw m (str s) out = refl

  collect-translate_fields :
      (m : ℤ → Option String) (o : Fields) (out : List ℤ)
      → collect_fields (translate_fields m o) out ≡ out
  collect-translate_fields m end out = refl
  collect-translate_fields m (field k v fs) out =
      ap (collect_fields (translate_fields m fs))
        (translated-nothing m k v out (collect-translate_raw m v out))
      ∙ collect-translate_fields m fs out

  collect-translate_items :
      (m : ℤ → Option String) (vs : Items) (out : List ℤ)
      → collect_items (translate_items m vs) out ≡ out
  collect-translate_items m nil out = refl
  collect-translate_items m (cons v vs) out =
      ap (collect_items (translate_items m vs)) (collect-translate_raw m v out)
      ∙ collect-translate_items m vs out

-- A translated route refers to no outbound by number any more, at any depth.
pub collect-translate_raw_outbounds :
    (m : ℤ → Option String) (route : Fields)
    → collect_raw_outbound_ids (translate_raw_outbounds route m) ≡ []
unfolding collect_raw_outbound_ids translate_raw_outbounds
collect-translate_raw_outbounds m route = collect-translate_raw m (obj route) []
