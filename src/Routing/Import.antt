-- ===== src/Routing/Import.antt =====
-- The import of rules in src/database/entities/RouteProfile.cpp: `parse_rule_object` and
-- `parseJsonArray`. A read outside a list (`value[0]` of an empty list) is `none`.
pub mod Steps
pub mod Tidy
pub mod Runs
pub mod RoundTrip
use free_link_app.Common.{
  ℕ, suc, ◌+◌, ℤ, pos, String, String_eq, ℤ_eq, Bool, true, false, not, ◌||◌, Option, none, some,
  List, [], ◌∷◌, ◌++◌, map, Eq, ◌==◌, if◌then◌else◌, ◌<>◌, is_none,
}
use free_link_app.Qt.{Qt}
use free_link_app.Json.{
  Json, null, bool, num, str, arr, obj, Items, nil, cons, Fields, end, field, of_items, to_text,
  text_at,
}
use free_link_app.Routing.RuleType.{proxy_id, direct_id, invalid_id}
use free_link_app.Routing.Rule.{RouteRule, new_rule}
use free_link_app.Routing.Rule.Values.{set_field_value}
use free_link_app.Routing.Profiles.{Profiles}

unfoldable pub is_outbound_id_valid : Profiles → ℤ → Bool
is_outbound_id_valid p id =
    if id == proxy_id
    then true
    else if id == direct_id
    then true
    else not (is_none (p.display_name id))

unfoldable pub get_outbound_id : Profiles → String → ℤ
get_outbound_id p name =
    if name == "proxy"
    then proxy_id
    else if name == "direct"
    then direct_id
    else elim (p.id_of_name name) [ none ↦ invalid_id | some id ↦ id ]

-- A rule under construction, and the warnings so far.
abbrev pub Draft : Type 0
Draft = RouteRule × List String

abbrev pub then_parse : Option Draft → (Draft → Option Draft) → Option Draft
then_parse none f = none
then_parse (some d) f = f d

module _ (q : Qt) (p : Profiles) where
  unfoldable pub set_outbound : Json → Draft → Draft
  unfolding is_outbound_id_valid get_outbound_id
  set_outbound (num id) (r, w) =
      if is_outbound_id_valid p id then (record r { outbound_id = id }, w) else (
        record r { outbound_id = proxy_id },
        w ++ ("outbound id " <> (q.number id <> " not found, using proxy\n")) ∷ [],
      )
  set_outbound (str name) (r, w) =
      let id = get_outbound_id p name in
      if not (id == invalid_id) then (record r { outbound_id = id }, w) else (
        record r { outbound_id = proxy_id },
        w ++ ("outbound \"" <> (name <> "\" not found, using proxy\n")) ∷ [],
      )
  set_outbound _ d = d

  abbrev pub with_rule : List String → Option RouteRule → Option Draft
  with_rule w none = none
  with_rule w (some r) = some (r, w)

  unfoldable pub set_from_json : String → Json → Draft → Option Draft
  set_from_json key (arr vs) (r, w) =
      with_rule w (set_field_value q key (map to_text (of_items vs)) r)
  set_from_json key (str s) (r, w) = with_rule w (set_field_value q key (s ∷ []) r)
  set_from_json key (bool b) (r, w) =
      with_rule w (set_field_value q key ((if b then "true" else "false") ∷ []) r)
  set_from_json key _ d = some d

  -- One round of the loop over the keys.
  unfoldable pub parse_key : String → Json → Draft → Option Draft
  unfolding set_outbound set_from_json
  parse_key key val d =
      if key == "name" || key == "type"
      then some d
      else if key == "outbound"
      then some (set_outbound val d)
      else set_from_json key val d

  unfoldable pub parse_keys : Fields → Draft → Option Draft
  parse_keys end d = some d
  parse_keys (field k v fs) d = then_parse (parse_key k v d) (parse_keys fs)

  unfoldable pub parse_rule_object : Fields → List String → Option Draft
  parse_rule_object o w = parse_keys o (new_rule, w)

-- What an array import comes to: a fault, an error text or rules, with the warnings so far.
pub data ArrayResult : Type 0 where
  fault : ArrayResult
  error : String → List String → ArrayResult
  parsed : List RouteRule → List String → ArrayResult

abbrev pub cons_rule : RouteRule → ArrayResult → ArrayResult
cons_rule r fault = fault
cons_rule r (error e w) = error e w
cons_rule r (parsed rs w) = parsed (r ∷ rs) w

-- QJsonValue::type() of a member that is no object.
abbrev json_type : Json → ℤ
json_type null = pos 0
json_type (bool b) = pos 1
json_type (num n) = pos 2
json_type (str s) = pos 3
json_type (arr vs) = pos 4
json_type (obj fs) = pos 5

module _ (q : Qt) (p : Profiles) where
  -- The loop of parseJsonArray; `rule_id` counts the rules that had no name.
  unfoldable pub parse_items : Items → ℕ → List String → ArrayResult
  parse_items nil rule_id w = parsed [] w
  parse_items (cons (obj ro) vs) rule_id w = elim (parse_rule_object q p ro w) [
    | none ↦ fault
    | some (r, w') ↦
        let nm = text_at "name" ro in
        let rest = parse_items vs (if nm == "" then suc rule_id else rule_id) w' in
        cons_rule
          (record r { name = if nm == "" then "imported rule #" <> q.number (pos rule_id) else nm })
          rest
  ]
  parse_items (cons v vs) rule_id w =
      error
        ("expected array of json objects but have member of type '"
          <> (q.number (json_type v) <> "'"))
        w

  unfoldable pub parse_json_array : Items → List String → ArrayResult
  unfolding parse_items
  parse_json_array nil w = error "Input is not a valid json array" w
  parse_json_array (cons v vs) w = parse_items (cons v vs) 1 w
