-- ===== src/Routing/Raw.antt =====
-- The outbound references of a raw route in src/database/entities/RouteProfile.cpp: the numbers under
-- the keys `outbound` and `final`, at any depth. The keys of an object differ, so the object that a
-- walk builds key by key has the shape of the one that it reads.
pub mod Collect
pub mod Remap
pub mod Landing
use free_link_app.Common.{
  ℤ, pos, is_negative, String, String_eq, ℤ_eq, Bool, true, false, ◌||◌, Option, none, some, List,
  [], ◌∷◌, ◌++◌, Eq, ◌==◌, if◌then◌else◌, contains, ◌<>◌,
}
use free_link_app.Qt.{Qt}
use free_link_app.Json.{
  Json, null, bool, num, str, arr, obj, Items, nil, cons, Fields, end, field, text_at, to_object,
}
use free_link_app.Routing.RuleType.{proxy_id}
use free_link_app.Routing.Profiles.{Profiles}

-- (key == "outbound" || key == "final") && value.isDouble()
abbrev pub reference : String → Json → Option ℤ
reference key (num id) = if key == "outbound" || key == "final" then some id else none
reference key _ = none

-- if (!out.contains(id)) out.append(id)
abbrev pub append_new : ℤ → List ℤ → List ℤ
append_new id out = if contains out id then out else out ++ id ∷ []

abbrev pub or_else_collect : Option ℤ → List ℤ → List ℤ → List ℤ
or_else_collect none out deeper = deeper
or_else_collect (some id) out deeper = append_new id out

unfoldable mutual
  pub collect_raw : Json → List ℤ → List ℤ
  collect_raw (obj o) out = collect_fields o out
  collect_raw (arr vs) out = collect_items vs out
  collect_raw null out = out
  collect_raw (bool b) out = out
  collect_raw (num n) out = out
  collect_raw (str s) out = out

  pub collect_fields : Fields → List ℤ → List ℤ
  collect_fields end out = out
  collect_fields (field k v fs) out =
      collect_fields fs (or_else_collect (reference k v) out (collect_raw v out))

  pub collect_items : Items → List ℤ → List ℤ
  collect_items nil out = out
  collect_items (cons v vs) out = collect_items vs (collect_raw v out)

-- CollectRawOutboundIds
unfoldable pub collect_raw_outbound_ids : Fields → List ℤ
unfolding collect_raw
collect_raw_outbound_ids route = collect_raw (obj route) []

-- The tag of an id, or the proxy's.
abbrev pub tag_of : (ℤ → Option String) → ℤ → Json
tag_of m id = elim (m id) [ none ↦ str "proxy" | some t ↦ str t ]

abbrev pub or_else_keep : Option Json → Json → Json
or_else_keep none v = v
or_else_keep (some w) v = w

abbrev pub map_reference : (ℤ → Json) → Option ℤ → Option Json
map_reference f none = none
map_reference f (some id) = some (f id)

-- translateRawOutboundsRec, with the std::map as a function.
unfoldable mutual
  pub translate_raw : (ℤ → Option String) → Json → Json
  translate_raw m (obj o) = obj (translate_fields m o)
  translate_raw m (arr vs) = arr (translate_items m vs)
  translate_raw m null = null
  translate_raw m (bool b) = bool b
  translate_raw m (num n) = num n
  translate_raw m (str s) = str s

  pub translate_fields : (ℤ → Option String) → Fields → Fields
  translate_fields m end = end
  translate_fields m (field k v fs) =
      field k (or_else_keep (map_reference (tag_of m) (reference k v)) (translate_raw m v))
        (translate_fields m fs)

  pub translate_items : (ℤ → Option String) → Items → Items
  translate_items m nil = nil
  translate_items m (cons v vs) = cons (translate_raw m v) (translate_items m vs)

-- TranslateRawOutbounds
unfoldable pub translate_raw_outbounds : Fields → (ℤ → Option String) → Fields
unfolding translate_raw
translate_raw_outbounds route m = to_object (translate_raw m (obj route))

-- The local id for a foreign one: by the name that was exported with it.
module _ (q : Qt) (p : Profiles) (names : Fields) where
  unfoldable pub local_id : ℤ → ℤ
  local_id id =
      let nm = text_at (q.number id) names in
      if is_negative id
      then id
      else if nm == ""
      then proxy_id
      else elim (p.id_of_name nm) [ none ↦ proxy_id | some l ↦ l ]

  -- The warning for an id that has no local profile.
  unfoldable pub local_warning : ℤ → List String
  local_warning id =
      let nm = text_at (q.number id) names in
      let missing =
        λ (what : String). ("outbound \"" <> (what <> "\" not found, using proxy\n")) ∷ [] in
      if is_negative id
      then []
      else if nm == ""
      then missing (q.number id)
      else elim (p.id_of_name nm) [ none ↦ missing nm | some l ↦ [] ]

  abbrev pub moved : ℤ → Json
  moved id = num (local_id id)

  -- remapRawOutboundsByNameRec, the value
  unfoldable mutual
    pub remap_raw : Json → Json
    remap_raw (obj o) = obj (remap_fields o)
    remap_raw (arr vs) = arr (remap_items vs)
    remap_raw null = null
    remap_raw (bool b) = bool b
    remap_raw (num n) = num n
    remap_raw (str s) = str s

    pub remap_fields : Fields → Fields
    remap_fields end = end
    remap_fields (field k v fs) =
        field k (or_else_keep (map_reference moved (reference k v)) (remap_raw v)) (remap_fields fs)

    pub remap_items : Items → Items
    remap_items nil = nil
    remap_items (cons v vs) = cons (remap_raw v) (remap_items vs)

  abbrev pub warn : Option ℤ → List String → List String
  warn none deeper = deeper
  warn (some id) deeper = local_warning id

  -- remapRawOutboundsByNameRec, the warnings
  unfoldable mutual
    pub remap_warnings : Json → List String
    remap_warnings (obj o) = field_warnings o
    remap_warnings (arr vs) = item_warnings vs
    remap_warnings null = []
    remap_warnings (bool b) = []
    remap_warnings (num n) = []
    remap_warnings (str s) = []

    pub field_warnings : Fields → List String
    field_warnings end = []
    field_warnings (field k v fs) = warn (reference k v) (remap_warnings v) ++ field_warnings fs

    pub item_warnings : Items → List String
    item_warnings nil = []
    item_warnings (cons v vs) = remap_warnings v ++ item_warnings vs
