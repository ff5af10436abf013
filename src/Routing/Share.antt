-- ===== src/Routing/Share.antt =====
-- Sharing a routing profile (src/database/entities/RouteProfile.cpp): `ToShareObject`, `ToShareLink` and
-- `FromShareInput`. What Qt does with JSON texts, base64 and URLs is a
-- parameter.
pub mod Rules
pub mod Names
pub mod RoundTrip
use free_link_app.Common.{
  ℕ, suc, ℤ, pos, negsuc, is_negative, String, String_eq, ℤ_eq, ◌≡◌, Bool, true, false, not, ◌&&◌,
  ◌||◌, Option, none, some, List, [], ◌∷◌, ◌++◌, map, Eq, ◌==◌, if◌then◌else◌, ◌<>◌, is_none,
}
use free_link_app.Qt.{Qt}
use free_link_app.Json.{
  Json, null, bool, num, str, arr, obj, Items, nil, cons, Fields, end, field, set_key, get_key,
  is_empty_object, to_items, text_at, bool_at, object_at, array_at,
}
use free_link_app.Routing.RuleType.{
  outbound_id_to_string, string_to_outbound_id, token_to_rule_type, is_custom,
}
use free_link_app.Routing.Rule.{RouteRule}
use free_link_app.Routing.Rule.Values.{is_blank}
use free_link_app.Routing.Profile.{RouteProfile, new_profile}
use free_link_app.Routing.Profiles.{Profiles}
use free_link_app.Routing.RuleJson.{is_empty_rule, to_share_json}
use free_link_app.Routing.Import.{
  parse_rule_object, parse_json_array, ArrayResult, fault, error, parsed,
}
use free_link_app.Routing.Raw.{collect_raw_outbound_ids, remap_fields, field_warnings}
use free_link_app.Routing.Generate.{skips}

-- A QJsonDocument that is not null.
pub data Document : Type 0 where
  object : Fields → Document
  array : Items → Document

pub record Codec : Type 0 where
  -- QJsonDocument::fromJson
  pub parse_json : String → Option Document
  -- QJsonDocument::toJson of an object, compact
  pub print_json : Fields → String
  -- the same, indented
  pub print_indented : Fields → String
  -- QByteArray::toBase64 and fromBase64 for URLs, and fromBase64 for the standard alphabet
  pub to_base64_url : String → String
  pub from_base64_url : String → String
  pub from_base64 : String → String
  -- startsWith("freelink://", Qt::CaseInsensitive)
  pub is_deep_link : String → Bool
  -- QUrl(text).host().compare(name, Qt::CaseInsensitive) == 0
  pub has_host : String → String → Bool
  -- startsWith("http://") or startsWith("https://"), both Qt::CaseInsensitive
  pub is_http : String → Bool
  -- QUrl(text).host()
  pub host_of : String → String
  -- QString::toLower
  pub to_lower : String → String
  -- QUrlQuery(u).queryItemValue("data", QUrl::FullyDecoded)
  pub data_of : String → String

-- QString2QJsonObject of src/global/Utils.cpp: the empty object for what is no object
unfoldable pub text_to_object : Codec → String → Fields
text_to_object k s = elim (k.parse_json s) [
  | none ↦ end
  | some (object o) ↦ o
  | some (array vs) ↦ end
]

module _ (q : Qt) (p : Profiles) where
  -- The map of names of the server profiles that a raw route refers to.
  unfoldable pub outbound_names : List ℤ → Fields → Fields
  outbound_names [] o = o
  outbound_names (id ∷ ids) o = outbound_names ids (
      if is_negative id
      then o
      else elim (p.profile_name id) [ none ↦ o | some n ↦ set_key (q.number id) (str n) o ])

  -- The loop of ToShareObject over the rules, with the rules as they are left.
  unfoldable pub share_rules : List RouteRule → List RouteRule × List Fields
  share_rules [] = ([], [])
  share_rules (r ∷ rs) =
      let (s, o) = to_share_json q p r in
      let rest = share_rules rs in
      if skips q p r
      then (r ∷ rest.0, rest.1)
      else if is_empty_object o
      then (s ∷ rest.0, rest.1)
      else (s ∷ rest.0, o ∷ rest.1)

  -- The share object of a structured profile.
  abbrev pub structured_root : String → String → List Fields → Fields
  structured_root name default_outbound shared = field "kind" (str "freelink-route-profile") (
      field "v" (num (pos 1)) (
        field "name" (str name) (
          field "default_outbound" (str default_outbound)
            (field "rules" (arr (to_items (map obj shared))) end))))

  -- ToShareObject
  unfoldable pub to_share_object : Codec → RouteProfile → RouteProfile × Fields
  unfolding share_rules
  to_share_object k c =
      let route = text_to_object k c.raw_route in
      let (rules, shared) = share_rules c.rules in
      if c.is_raw
      then (
        c,
        field "kind" (str "freelink-route-profile") (
            field "v" (num (pos 1)) (
              field "name" (str c.name) (
                field "raw" (bool true) (
                  field "prevent_modifications" (bool c.prevent_modifications) (
                    field "route" (obj route) (
                      field "outbound_names"
                        (obj (outbound_names (collect_raw_outbound_ids route) end)) end)))))),
      )
      else (
        record c { rules = rules },
        structured_root c.name (outbound_id_to_string c.default_outbound_id) shared,
      )

  -- ToShareLink
  unfoldable pub to_share_link : Codec → RouteProfile → RouteProfile × String
  unfolding to_share_object
  to_share_link k c =
      let (d, root) = to_share_object k c in
      (d, "freelink://route?data=" <> k.to_base64_url (k.print_json root))

  abbrev pub add_rule :
      RouteRule → Option (List RouteRule × List String) → Option (List RouteRule × List String)
  add_rule r none = none
  add_rule r (some (rs, w)) = some (r ∷ rs, w)

  -- The loop of FromShareInput over the rules; `fallback_num` counts the rules without a name.
  unfoldable pub read_rules : Items → ℕ → List String → Option (List RouteRule × List String)
  read_rules nil fallback_num w = some ([], w)
  read_rules (cons (obj ro) vs) fallback_num w = elim (parse_rule_object q p ro w) [
    | none ↦ none
    | some (r, w') ↦
        let nm = text_at "name" ro in
        let rest = read_rules vs (if nm == "" then suc fallback_num else fallback_num) w' in
        add_rule
          (record r {
            rule_type = token_to_rule_type (text_at "type" ro);
            name = if nm == "" then "rule_" <> q.number (pos fallback_num) else nm;
          })
          rest
  ]
  read_rules (cons v vs) fallback_num w = read_rules vs fallback_num w

-- What FromShareInput comes to: a read outside a list, the fatal error, or a profile with the
-- warnings and whether the input was a bare array.
pub data ShareResult : Type 0 where
  stray_read : ShareResult
  fatal : String → List String → ShareResult
  loaded : RouteProfile → List String → Bool → ShareResult

module _ (q : Qt) (p : Profiles) (k : Codec) where
  -- The tagged object of the share schema.
  unfoldable pub read_share_object : Fields → ShareResult
  unfolding read_rules
  read_share_object root =
      let names = object_at "outbound_names" root in
      let route = object_at "route" root in
      if not (text_at "kind" root == "freelink-route-profile")
      then fatal "Unrecognized route object" []
      else if bool_at "raw" root
      then loaded
          (record new_profile {
            is_raw = true;
            name = text_at "name" root;
            prevent_modifications = bool_at "prevent_modifications" root;
            raw_route = k.print_indented (remap_fields q p names route);
          })
          (field_warnings q p names route) false
      else elim (read_rules q p (array_at "rules" root) 1 []) [
        | none ↦ stray_read
        | some (rules, w) ↦
            loaded
              (record new_profile {
                name = text_at "name" root;
                default_outbound_id = string_to_outbound_id (text_at "default_outbound" root);
                rules = rules;
              })
              w false
      ]

  -- The old schema: a bare array of rules.
  abbrev read_array : ArrayResult → ShareResult
  read_array fault = stray_read
  read_array (error e w) = fatal e w
  read_array (parsed rules w) = loaded (record new_profile { rules = rules }) w true

  abbrev read_document : Option Document → ShareResult
  read_document none = fatal "Input is not valid JSON, base64, or a FreeLink route link" []
  read_document (some (object root)) = read_share_object root
  read_document (some (array vs)) = read_array (parse_json_array q p vs [])

  abbrev or_else : Option Document → Option Document → Option Document
  or_else none d = d
  or_else (some d) e = some d

  -- JSON, else base64 for URLs, else standard base64.
  unfoldable pub resolve_document : String → Option Document
  resolve_document text =
      or_else (k.parse_json text)
        (or_else (k.parse_json (k.from_base64_url text)) (k.parse_json (k.from_base64 text)))

  -- FromShareInput
  unfoldable pub from_share_input : String → ShareResult
  unfolding read_share_object resolve_document
  from_share_input input =
      let text = q.trimmed input in
      let payload = q.trimmed (k.data_of text) in
      if text == ""
      then fatal "Empty input" []
      else if k.is_deep_link text
      then (if not (k.has_host text "route")
          then fatal "Unsupported deep link command" []
          else if payload == ""
          then fatal "Deep link has no data" []
          else read_document (resolve_document payload))
      else read_document (resolve_document text)
