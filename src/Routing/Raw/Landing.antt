-- ===== src/Routing/Raw/Landing.antt =====
-- A raw route whose profiles all have a place on the importing machine
-- (src/database/entities/RouteProfile.cpp).
use mathlib.Core.Path.{ap₂}
use free_link_app.Common.{
  ℤ, String, String_eq, ℤ_eq, ◌≡◌, refl, ap, true, ◌||◌, List, [], ◌++◌, ◌==◌, contains,
  is_negative, arith, beq_refl, Bool-cases, inl, inr, if◌then◌else◌,
}
use free_link_app.Qt.{Qt}
use free_link_app.Json.{Json, null, bool, num, str, arr, obj, Items, nil, cons, Fields, end, field}
use free_link_app.Routing.Profiles.{Profiles}
use free_link_app.Routing.Raw.{
  reference, or_else_collect, or_else_keep, map_reference, collect_raw, collect_fields,
  collect_items, local_id, local_warning, moved, remap_raw, remap_fields, remap_items, warn,
  remap_warnings, field_warnings, item_warnings,
}
use free_link_app.Routing.Raw.Collect.{
  contains-append_new, collect_fields-keeps, collect_items-keeps,
}

-- Where an outbound ends up: a reserved (negative) one stays, a profile gets its new number.
abbrev pub landed : (ℤ → ℤ) → ℤ → ℤ
landed land id = if is_negative id then id else land id

-- A number that an object holds under `outbound` or `final`.
abbrev pub renumber_at : (ℤ → ℤ) → String → Json → Json
renumber_at land key (num id) =
    num (if key == "outbound" || key == "final" then landed land id else id)
renumber_at land key v = v

-- A route with its references renumbered, at any depth.
unfoldable mutual
  pub renumber : (ℤ → ℤ) → Json → Json
  renumber land (obj o) = obj (renumber_fields land o)
  renumber land (arr vs) = arr (renumber_items land vs)
  renumber land null = null
  renumber land (bool b) = bool b
  renumber land (num n) = num n
  renumber land (str s) = str s

  pub renumber_fields : (ℤ → ℤ) → Fields → Fields
  renumber_fields land end = end
  renumber_fields land (field k v fs) =
      field k (renumber_at land k (renumber land v)) (renumber_fields land fs)

  pub renumber_items : (ℤ → ℤ) → Items → Items
  renumber_items land nil = nil
  renumber_items land (cons v vs) = cons (renumber land v) (renumber_items land vs)

module _ (q : Qt) (p : Profiles) (names : Fields) (land : ℤ → ℤ) where
  -- Every id among the collected ones is found where it is meant to land, without a warning.
  abbrev pub Lands : List ℤ → Type 0
  Lands ids =
      (x : ℤ)
      → contains ids x ≡ true
      → (local_id q p names x ≡ landed land x) × (local_warning q p names x ≡ [])

  reference-landed :
      (k : String) (id : ℤ) (out : List ℤ)
      → Lands (or_else_collect (reference k (num id)) out out)
      → (or_else_keep (map_reference (moved q p names) (reference k (num id))) (num id)
          ≡ renumber_at land k (num id))
        × (warn q p names (reference k (num id)) [] ≡ [])
  reference-landed k id out h = elim (Bool-cases (k == "outbound" || k == "final")) [
    | inl e ↦
        let at_id =
          (rw (e, reference) at h) id
            (ground (arith, contains-append_new id id out, beq_refl id)) in
        rw e (ap num at_id.0, at_id.1)
    | inr e ↦ rw e (refl, refl)
  ]

mutual
  unfolding remap_raw remap_warnings renumber collect_raw

  remap_raw-landed :
      (q : Qt) (p : Profiles) (names : Fields) (land : ℤ → ℤ) (j : Json) (out : List ℤ)
      → Lands q p names land (collect_raw j out)
      → (remap_raw q p names j ≡ renumber land j) × (remap_warnings q p names j ≡ [])
  remap_raw-landed q p names land (obj o) out h =
      let (same, calm) = remap_fields-landed q p names land o out h in (ap obj same, calm)
  remap_raw-landed q p names land (arr vs) out h =
      let (same, calm) = remap_items-landed q p names land vs out h in (ap arr same, calm)
  remap_raw-landed q p names land null out h = (refl, refl)
  remap_raw-landed q p names land (bool b) out h = (refl, refl)
  remap_raw-landed q p names land (num n) out h = (refl, refl)
  remap_raw-landed q p names land (str s) out h = (refl, refl)

  value-landed :
      (q : Qt) (p : Profiles) (names : Fields) (land : ℤ → ℤ) (k : String) (v : Json) (out : List ℤ)
      → Lands q p names land (or_else_collect (reference k v) out (collect_raw v out))
      → (or_else_keep (map_reference (moved q p names) (reference k v)) (remap_raw q p names v)
          ≡ renumber_at land k (renumber land v))
        × (warn q p names (reference k v) (remap_warnings q p names v) ≡ [])
  value-landed q p names land k (obj o) out h =
      let (same, calm) = remap_fields-landed q p names land o out h in (ap obj same, calm)
  value-landed q p names land k (arr vs) out h =
      let (same, calm) = remap_items-landed q p names land vs out h in (ap arr same, calm)
  value-landed q p names land k null out h = (refl, refl)
  value-landed q p names land k (bool b) out h = (refl, refl)
  value-landed q p names land k (str s) out h = (refl, refl)
  value-landed q p names land k (num id) out h = reference-landed q p names land k id out h

  pub remap_fields-landed :
      (q : Qt) (p : Profiles) (names : Fields) (land : ℤ → ℤ) (o : Fields) (out : List ℤ)
      → Lands q p names land (collect_fields o out)
      → (remap_fields q p names o ≡ renumber_fields land o) × (field_warnings q p names o ≡ [])
  remap_fields-landed q p names land end out h = (refl, refl)
  remap_fields-landed q p names land (field k v fs) out h =
      let next = or_else_collect (reference k v) out (collect_raw v out) in
      let (value, calm) =
        value-landed q p names land k v out (λ x c. h x (collect_fields-keeps x fs next c)) in
      let (rest, quiet) = remap_fields-landed q p names land fs next h in
      (ap₂ (field k) value rest, ap₂ (λ (a b : List String). a ++ b) calm quiet)

  remap_items-landed :
      (q : Qt) (p : Profiles) (names : Fields) (land : ℤ → ℤ) (vs : Items) (out : List ℤ)
      → Lands q p names land (collect_items vs out)
      → (remap_items q p names vs ≡ renumber_items land vs) × (item_warnings q p names vs ≡ [])
  remap_items-landed q p names land nil out h = (refl, refl)
  remap_items-landed q p names land (cons v vs) out h =
      let next = collect_raw v out in
      let (value, calm) =
        remap_raw-landed q p names land v out (λ x c. h x (collect_items-keeps x vs next c)) in
      let (rest, quiet) = remap_items-landed q p names land vs next h in
      (ap₂ cons value rest, ap₂ (λ (a b : List String). a ++ b) calm quiet)
