-- ===== src/Subscription/Kinds.antt =====
-- What a JSON document of a subscription is (src/configs/sub/GroupUpdater.cpp).
use free_link_app.Common.{
  String, String_eq, Bool, false, not, ◌&&◌, ◌||◌, none, some, ◌==◌, if◌then◌else◌, is_none,
}
use free_link_app.Json.{
  Json, null, bool, num, str, arr, obj, Items, nil, cons, Fields, end, field, get_key, set_key,
  text_at, object_at, array_at, to_object, is_empty_object,
}
use free_link_app.Routing.Share.{Document}

-- SingBoxSubType and XraySubType
pub data DocumentKind : Type 0 where
  outbound_in_json : DocumentKind
  outbound_json_array : DocumentKind
  outbound_object : DocumentKind
  invalid : DocumentKind

abbrev pub has : String → Fields → Bool
has k o = not (is_none (get_key k o))

-- Whether a value is an object with a key.
abbrev pub object_has : String → Json → Bool
object_has k (obj o) = has k o
object_has k (arr vs) = false
object_has k null = false
object_has k (bool b) = false
object_has k (num n) = false
object_has k (str s) = false

-- The kind of an array, by its first member.
abbrev array_kind : String → Items → DocumentKind
array_kind k nil = invalid
array_kind k (cons v vs) = if object_has k v then outbound_json_array else invalid

-- getSingBoxSubType
unfoldable pub get_sing_box_sub_type : Document → DocumentKind
get_sing_box_sub_type (Document.object o) =
    if has "outbounds" o || has "endpoints" o
    then outbound_in_json
    else if has "type" o
    then outbound_object
    else invalid
get_sing_box_sub_type (Document.array vs) = array_kind "type" vs

abbrev any_has : String → Items → Bool
any_has k nil = false
any_has k (cons v vs) = object_has k v || any_has k vs

-- getXraySubType
unfoldable pub get_xray_sub_type : Document → DocumentKind
get_xray_sub_type (Document.object o) =
    if has "outbounds" o && any_has "protocol" (array_at "outbounds" o)
    then outbound_in_json
    else if has "protocol" o
    then outbound_object
    else invalid
get_xray_sub_type (Document.array vs) = array_kind "protocol" vs

abbrev first_object : Items → Fields
first_object nil = end
first_object (cons v vs) = to_object v

abbrev value_at : String → Fields → Json
value_at k o = elim (get_key k o) [ none ↦ null | some v ↦ v ]

-- The settings of the first user of the first server.
abbrev simple_settings : Fields → Fields → Fields
simple_settings server user = field "address" (value_at "address" server) (
    field "port" (value_at "port" server) (
      field "id" (value_at "id" user) (
        field "encryption" (elim (get_key "encryption" user) [ none ↦ str "none" | some v ↦ v ])
          (field "flow" (value_at "flow" user) end))))

-- normalizeXrayVlessForParse
unfoldable pub normalize_xray_vless_for_parse : Fields → Fields
normalize_xray_vless_for_parse out =
    let settings = object_at "settings" out in
    let server = first_object (array_at "vnext" settings) in
    let users = array_at "users" server in
    let simple = set_key "settings" (obj (simple_settings server (first_object users))) out in
    if not (text_at "protocol" out == "vless")
    then end
    else if has "address" settings && not (has "vnext" settings)
    then out
    else if is_empty_object server
    then end
    else elim users [ nil ↦ end | cons v vs ↦ simple ]
