-- ===== src/Routing/Raw/Remap.antt =====
-- The import of a raw route from another machine (src/database/entities/RouteProfile.cpp).
use text.Mathlib.TextEquality.{eq_iff}
use free_link_app.Common.{
  ℤ, String, String_eq, ℤ_eq, ◌≡◌, refl, true, false, ◌||◌, Option, none, some, List, [], ◌==◌,
  contains, is_negative, inl, inr, All, All-snoc, Bool-cases, if_rule, if_split, arith, beq_refl,
}
use free_link_app.Qt.{Qt}
use free_link_app.Json.{
  Json, null, bool, num, str, arr, obj, Items, nil, cons, Fields, end, field, text_at,
}
use free_link_app.Routing.RuleType.{proxy_id}
use free_link_app.Routing.Profiles.{Profiles}
use free_link_app.Routing.Raw.{
  reference, append_new, or_else_collect, or_else_keep, map_reference, collect_raw, collect_fields,
  collect_items, local_id, moved, remap_raw, remap_fields, remap_items, collect_raw_outbound_ids,
}
use free_link_app.Routing.Raw.Collect.{
  contains-append_new, collect_fields-keeps, collect_items-keeps,
}

-- The id on this machine for one of the exporting machine: a reserved (negative) one for itself, a
-- profile for one under whose number a name was exported that the profile has, and the proxy for one
-- without a name or with one that no profile has.
pub data Stands (q : Qt) (p : Profiles) (names : Fields) : ℤ → ℤ → Type 0 where
  reserved : (id : ℤ) → is_negative id ≡ true → Stands q p names id id
  found :
      (foreign id : ℤ) (name : String)
      → is_negative foreign ≡ false
      → text_at (q.number foreign) names ≡ name
      → (name == "") ≡ false
      → p.id_of_name name ≡ some id
      → Stands q p names foreign id
  unnamed :
      (foreign : ℤ)
      → is_negative foreign ≡ false
      → text_at (q.number foreign) names ≡ ""
      → Stands q p names foreign proxy_id
  missing :
      (foreign : ℤ) (name : String)
      → is_negative foreign ≡ false
      → text_at (q.number foreign) names ≡ name
      → p.id_of_name name ≡ none
      → Stands q p names foreign proxy_id

-- It stands for one of the ids in a list.
abbrev pub StandsForOne : Qt → Profiles → Fields → List ℤ → ℤ → Type 0
StandsForOne q p names ids id =
    (foreign : ℤ) × (contains ids foreign ≡ true) × Stands q p names foreign id

found_or_proxy :
    (q : Qt) (p : Profiles) (names : Fields) (foreign : ℤ) (o : Option ℤ)
    → is_negative foreign ≡ false
    → (text_at (q.number foreign) names == "") ≡ false
    → p.id_of_name (text_at (q.number foreign) names) ≡ o
    → Stands q p names foreign (elim o [ none ↦ proxy_id | some l ↦ l ])
found_or_proxy q p names foreign none n e f = Stands.missing foreign _ n refl f
found_or_proxy q p names foreign (some l) n e f = Stands.found foreign l _ n refl e f

All-append_new :
    (P : ℤ → Type 0) (id : ℤ) (out : List ℤ) → P id → All P out → All P (append_new id out)
All-append_new P id out x h = if_rule (All P) (contains out id) out _ h (All-snoc P out id h x)

-- All that is collected is among some ids.
abbrev Among : List ℤ → List ℤ → Type 0
Among ids out = (x : ℤ) → contains out x ≡ true → contains ids x ≡ true

module _ (q : Qt) (p : Profiles) (names : Fields) where
  local_id-Stands : (id : ℤ) → Stands q p names id (local_id q p names id)
  unfolding local_id
  local_id-Stands id =
      let nm = text_at (q.number id) names in
      let For = Stands q p names id in
      if_split For (is_negative id) id _ (λ e. Stands.reserved id e)
        (λ n.
          if_split For (nm == "") proxy_id _ (λ e. Stands.unnamed id n ((eq_iff nm "").0 e))
            (λ e. found_or_proxy q p names id (p.id_of_name nm) n e refl))

  abbrev remapped : Option ℤ → Json → Json
  remapped o v = or_else_keep (map_reference (moved q p names) o) v

  module _ (ids : List ℤ) where
    abbrev AllStand : List ℤ → Type 0
    AllStand out = All (StandsForOne q p names ids) out

    local_reference :
        (id : ℤ) (out landed : List ℤ)
        → Among ids (append_new id out)
        → AllStand landed
        → AllStand (append_new (local_id q p names id) landed)
    local_reference id out landed h g =
        let here = h id (ground (arith, contains-append_new id id out, beq_refl id)) in
        All-append_new (StandsForOne q p names ids) (local_id q p names id) landed
          (id, here, local_id-Stands id) g

    remapped-AllStand :
        (k : String) (v : Json) (out landed : List ℤ)
        → Among ids (or_else_collect (reference k v) out (collect_raw v out))
        → AllStand landed
        → (Among ids (collect_raw v out) → AllStand (collect_raw (remap_raw q p names v) landed))
        → AllStand (
            or_else_collect
              (reference k (remapped (reference k v) (remap_raw q p names v)))
              landed
              (collect_raw (remapped (reference k v) (remap_raw q p names v)) landed))
    unfolding collect_raw remap_raw
    remapped-AllStand k (obj o) out landed a h g = g a
    remapped-AllStand k (arr vs) out landed a h g = g a
    remapped-AllStand k null out landed a h g = h
    remapped-AllStand k (bool b) out landed a h g = h
    remapped-AllStand k (str s) out landed a h g = h
    remapped-AllStand k (num id) out landed a h g =
        elim (Bool-cases (k == "outbound" || k == "final")) [
          | inl e ↦ rw (e, reference, e) (local_reference id out landed (rw (e, reference) at a) h)
          | inr e ↦ rw (e, reference, e) h
        ]

mutual
  unfolding collect_raw remap_raw

  collect-remap_raw :
      (q : Qt) (p : Profiles) (names : Fields) (ids : List ℤ) (j : Json) (out landed : List ℤ)
      → Among ids (collect_raw j out)
      → AllStand q p names ids landed
      → AllStand q p names ids (collect_raw (remap_raw q p names j) landed)
  collect-remap_raw q p names ids (obj o) out landed a h =
      collect-remap_fields q p names ids o out landed a h
  collect-remap_raw q p names ids (arr vs) out landed a h =
      collect-remap_items q p names ids vs out landed a h
  collect-remap_raw q p names ids null out landed a h = h
  collect-remap_raw q p names ids (bool b) out landed a h = h
  collect-remap_raw q p names ids (num n) out landed a h = h
  collect-remap_raw q p names ids (str s) out landed a h = h

  collect-remap_fields :
      (q : Qt) (p : Profiles) (names : Fields) (ids : List ℤ) (o : Fields) (out landed : List ℤ)
      → Among ids (collect_fields o out)
      → AllStand q p names ids landed
      → AllStand q p names ids (collect_fields (remap_fields q p names o) landed)
  collect-remap_fields q p names ids end out landed a h = h
  collect-remap_fields q p names ids (field k v fs) out landed a h =
      let next = or_else_collect (reference k v) out (collect_raw v out) in
      collect-remap_fields q p names ids fs next _ a (
        remapped-AllStand q p names ids k v out landed
          (λ x c. a x (collect_fields-keeps x fs next c)) h
          (λ b. collect-remap_raw q p names ids v out landed b h))

  collect-remap_items :
      (q : Qt) (p : Profiles) (names : Fields) (ids : List ℤ) (vs : Items) (out landed : List ℤ)
      → Among ids (collect_items vs out)
      → AllStand q p names ids landed
      → AllStand q p names ids (collect_items (remap_items q p names vs) landed)
  collect-remap_items q p names ids nil out landed a h = h
  collect-remap_items q p names ids (cons v vs) out landed a h =
      let next = collect_raw v out in
      collect-remap_items q p names ids vs next (collect_raw (remap_raw q p names v) landed) a (
        collect-remap_raw q p names ids v out landed (λ x c. a x (collect_items-keeps x vs next c))
          h)

-- Every outbound that an imported raw route refers to by number, at any depth, stands for one that the
-- route referred to before: a reserved (negative) one for itself, a profile for one under whose number
-- the profile's name was exported, and the proxy for one without a name there or with a name that no
-- profile of this machine has.
pub collect-remap-Stands :
    (q : Qt) (p : Profiles) (names route : Fields)
    → All
        (StandsForOne q p names (collect_raw_outbound_ids route))
        (collect_raw_outbound_ids (remap_fields q p names route))
unfolding collect_raw_outbound_ids collect_raw
collect-remap-Stands q p names route =
    collect-remap_fields q p names (collect_fields route []) route [] [] (λ x c. c) tt
