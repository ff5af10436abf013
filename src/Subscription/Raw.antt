-- ===== src/Subscription/Raw.antt =====
-- RawUpdater (src/configs/sub/GroupUpdater.cpp): the text of a subscription becomes profiles. The
-- parsers of the protocols (src/configs/outbounds) and of YAML are parameters.
pub mod Ends
pub mod Schemes
use Prim.Native.Char.{code}
use Prim.Native.String as Native
use free_link_app.Common.{
  ℕ, zero, suc, ◌+◌, String, String_eq, Bool, true, false, not, ◌&&◌, ◌||◌, Option, none, some,
  List, [], ◌∷◌, ◌++◌, ◌<>◌, ◌==◌, if◌then◌else◌, ltb, nat_eq,
}
use free_link_app.Text.{starts_with, newline}
use free_link_app.Json.{
  Json, obj, arr, null, bool, num, str, Items, nil, cons, Fields, end, text_at, array_at,
  is_empty_object,
}
use free_link_app.Routing.Share.{Document}
use free_link_app.Subscription.Disect.{disect}
use free_link_app.Subscription.Disect.Pieces.{size}
use free_link_app.Subscription.Kinds.{
  DocumentKind, outbound_in_json, outbound_json_array, outbound_object, invalid, has,
  get_sing_box_sub_type, get_xray_sub_type, normalize_xray_vless_for_parse,
}

-- Custom::type of a profile that keeps its text.
pub data CustomKind : Type 0 where
  custom_outbound : CustomKind
  custom_xray_outbound : CustomKind

-- What the updater calls, for profiles of the type `A`.
pub record Parsers (A : Type 0) : Type 0 where
  -- DecodeB64IfValid, as text: empty where the input is no base64
  pub decode_b64 : String → String
  -- QJsonDocument::fromJson, where there is no error
  pub parse_json : String → Option Document
  -- QJsonObject2QString(out, false)
  pub print_compact : Fields → String
  pub trimmed : String → String
  pub text_contains : String → String → Bool
  -- NewProfile(type) and its ParseFromLink, ParseFromJson and ParseFromSIP008
  pub from_link : String → String → Option A
  pub from_json : String → Fields → Option A
  pub from_sip008 : Fields → Option A
  -- the same, with the result of ParseFromJson ignored; `none` for a type that is not known
  pub from_json_link : String → Fields → Option A
  -- a custom profile with its text and its name
  pub custom : CustomKind → String → String → A
  pub from_clash : String → List A
  -- useXrayVless
  pub use_xray_vless : String → Bool
  -- the JSON object in the fragment of a link, empty where there is none
  pub fragment_object : String → Fields

-- How often a text has a line end; QString::count
abbrev pub has_newline : String → Bool
has_newline Native.[] = false
has_newline (Native.◌∷◌ c s) = nat_eq (code c) newline || has_newline s

module _ {A : Type 0} where
  abbrev pub of_option : Option A → List A
  of_option none = []
  of_option (some a) = a ∷ []

  -- The members of an array that are objects, each read by `f`.
  abbrev pub read_objects : (Fields → List A) → Items → List A
  read_objects f nil = []
  read_objects f (cons (obj o) vs) = f o ++ read_objects f vs
  read_objects f (cons (arr xs) vs) = read_objects f vs
  read_objects f (cons null vs) = read_objects f vs
  read_objects f (cons (bool b) vs) = read_objects f vs
  read_objects f (cons (num n) vs) = read_objects f vs
  read_objects f (cons (str s) vs) = read_objects f vs

  -- The loop over the lines of a text.
  abbrev pub each : (String → Option (List A)) → List String → Option (List A)
  each f [] = some []
  each f (l ∷ ls) =
      let rest = each f ls in
      elim (f l) [ none ↦ none | some xs ↦ elim rest [ none ↦ none | some ys ↦ some (xs ++ ys) ] ]

  -- The same for the lines that Disect gives.
  abbrev pub all_lines : (String → Option (List A)) → Option (List String) → Option (List A)
  all_lines f none = none
  all_lines f (some ls) = each f ls

  -- What is read of a document, or of a text that is none.
  abbrev pub document_or : (Document → List A) → Option Document → Option (List A) → Option (List A)
  document_or f none other = other
  document_or f (some doc) other = some (f doc)

-- The prefixes of links, and the type of the profile for them, in the order of the tests.
abbrev pub schemes : List (List String × String)
schemes =
    ("socks5://" ∷ "socks4://" ∷ "socks4a://" ∷ "socks://" ∷ [], "socks")
    ∷ ("http://" ∷ "https://" ∷ [], "http")
    ∷ ("ss://" ∷ [], "shadowsocks")
    ∷ ("vmess://" ∷ [], "vmess")
    ∷ ("vless://" ∷ [], "vless")
    ∷ ("trojan://" ∷ [], "trojan")
    ∷ ("anytls://" ∷ [], "anytls")
    ∷ ("mierus://" ∷ "mieru://" ∷ [], "mieru")
    ∷ ("hysteria://" ∷ "hysteria2://" ∷ "hy2://" ∷ [], "hysteria")
    ∷ ("tuic://" ∷ [], "tuic")
    ∷ ("juicity://" ∷ [], "juicity")
    ∷ ("tt://" ∷ [], "trusttunnel")
    ∷ ("shadowtls://" ∷ [], "shadowtls")
    ∷ ("wg://" ∷ [], "wireguard")
    ∷ ("ssh://" ∷ [], "ssh")
    ∷ ("naive+https://" ∷ "naive+quic://" ∷ [], "naive")
    ∷ []

abbrev pub starts_with_any : String → List String → Bool
starts_with_any s [] = false
starts_with_any s (p ∷ ps) = starts_with s p || starts_with_any s ps

-- The types of the sing-box outbounds that are read, and the type of the profile for each.
abbrev pub sing_box_types : List (String × String)
sing_box_types =
    ("socks", "socks")
    ∷ ("http", "http")
    ∷ ("shadowsocks", "shadowsocks")
    ∷ ("vmess", "vmess")
    ∷ ("vless", "vless")
    ∷ ("trojan", "trojan")
    ∷ ("anytls", "anytls")
    ∷ ("mieru", "mieru")
    ∷ ("hysteria", "hysteria")
    ∷ ("hysteria2", "hysteria")
    ∷ ("tuic", "tuic")
    ∷ ("juicity", "juicity")
    ∷ ("trusttunnel", "trusttunnel")
    ∷ ("shadowtls", "shadowtls")
    ∷ ("wireguard", "wireguard")
    ∷ ("ssh", "ssh")
    ∷ ("naive", "naive")
    ∷ []

module _ {A : Type 0} (p : Parsers A) where
  -- makeProfileForXrayOutbound
  unfoldable pub make_profile_for_xray_outbound : Fields → Option A
  make_profile_for_xray_outbound out =
      let protocol = text_at "protocol" out in
      let normalized = normalize_xray_vless_for_parse out in
      let custom = some (p.custom custom_xray_outbound (p.print_compact out) (text_at "tag" out)) in
      if is_empty_object out
      then none
      else if protocol == "freedom"
          || (protocol == "blackhole" || (protocol == "dns" || protocol == "loopback"))
      then none
      else if protocol == "vless" && not (is_empty_object normalized)
      then elim (p.from_json "xrayvless" normalized) [ none ↦ custom | some a ↦ some a ]
      else custom

  -- updateXray, on the array of the outbounds
  unfoldable pub update_xray : Items → List A
  update_xray = read_objects (λ o. of_option (make_profile_for_xray_outbound o))

  -- The tests of updateSingBox on the type of an outbound.
  unfoldable pub read_sing_box : List (String × String) → Fields → Option A → List A
  read_sing_box [] out ent = of_option ent
  read_sing_box ((t, profile) ∷ rows) out ent =
      let others = read_sing_box rows out ent in
      if text_at "type" out == t
      then elim (p.from_json profile out) [ none ↦ [] | some a ↦ read_sing_box rows out (some a) ]
      else others

  -- updateSingBox, on the arrays of outbounds and endpoints
  unfoldable pub update_sing_box : Items → Items → List A
  unfolding read_sing_box
  update_sing_box outbounds endpoints =
      let read =
        λ (o : Fields). if is_empty_object o then [] else read_sing_box sing_box_types o none in
      read_objects read outbounds ++ read_objects read endpoints

  -- updateSIP008
  unfoldable pub update_sip008 : Fields → List A
  update_sip008 json =
      read_objects (λ o. if is_empty_object o then [] else of_option (p.from_sip008 o))
        (array_at "servers" json)

  abbrev outbounds_of : Document → Items
  outbounds_of (Document.object o) = array_at "outbounds" o
  outbounds_of (Document.array vs) = vs

  abbrev endpoints_of : Document → Items
  endpoints_of (Document.object o) = array_at "endpoints" o
  endpoints_of (Document.array vs) = nil

  abbrev object_of : Document → Fields
  object_of (Document.object o) = o
  object_of (Document.array vs) = end

  abbrev read_sip008_if : String → Document → List A
  read_sip008_if s doc =
      if p.text_contains s "version" && p.text_contains s "servers"
      then update_sip008 (object_of doc)
      else []

  -- The part of `update` for a sing-box document.
  unfoldable pub read_sing_box_document : String → Document → DocumentKind → List A
  read_sing_box_document s doc outbound_in_json =
      update_sing_box (outbounds_of doc) (endpoints_of doc)
  read_sing_box_document s doc outbound_json_array = update_sing_box (outbounds_of doc) nil
  read_sing_box_document s doc outbound_object =
      p.custom custom_outbound s "" ∷ read_sip008_if s doc
  read_sing_box_document s doc invalid = read_sip008_if s doc

  -- The part of `update` for a JSON document.
  unfoldable pub read_document : String → Document → DocumentKind → List A
  read_document s doc outbound_object = of_option (make_profile_for_xray_outbound (object_of doc))
  read_document s doc outbound_in_json = update_xray (outbounds_of doc)
  read_document s doc outbound_json_array = update_xray (outbounds_of doc)
  read_document s doc invalid = read_sing_box_document s doc (get_sing_box_sub_type doc)

  -- The tests of `update` on the prefix of a link; a parser that refuses ends it.
  unfoldable pub read_schemes : List (List String × String) → String → Option A → List A
  read_schemes [] s ent = of_option ent
  read_schemes ((prefixes, profile) ∷ rows) s ent =
      let others = read_schemes rows s ent in
      let type = if profile == "vless" && p.use_xray_vless s then "xrayvless" else profile in
      if starts_with_any s prefixes
      then elim (p.from_link type s) [ none ↦ [] | some a ↦ read_schemes rows s (some a) ]
      else others

  abbrev json_link_type : Fields → String
  json_link_type o =
      if has "protocol" o
      then "xray" <> text_at "protocol" o
      else if text_at "type" o == "hysteria2"
      then "hysteria"
      else text_at "type" o

  -- The end of `update`, for one line. It is no JSON document, so one that begins with a brace has
  -- none of the keys that are looked for.
  unfoldable pub read_line : String → List A
  unfolding read_schemes
  read_line s =
      let o = p.fragment_object s in
      if starts_with s "//" || (starts_with s "#" || ltb (size s) 2)
      then []
      else if starts_with s "json://"
      then if is_empty_object o then [] else elim (p.from_json_link (json_link_type o) o) [
        | none ↦ []
        | some a ↦ read_schemes schemes s (some a)
      ]
      else if starts_with s "{"
      then []
      else read_schemes schemes s none

  -- RawUpdater::update, with the profiles that it appends; `none` is a call that the fuel does not
  -- reach the end of.
  unfoldable pub update : ℕ → String → Bool → Bool → Option (List A)
  update zero s need_parse decoded = none
  update (suc fuel) s need_parse decoded =
      let text = p.decode_b64 s in
      let again = update fuel text true true in
      let lines =
        all_lines (λ l. update fuel (p.trimmed l) false false) (disect (suc (size s)) s) in
      let other =
        if p.text_contains s "proxies:"
        then some (p.from_clash s)
        else if p.text_contains s "[Interface]" && p.text_contains s "[Peer]"
        then some (of_option (p.from_link "wireguard" s))
        else if has_newline s && need_parse
        then lines
        else some (read_line s) in
      if not decoded && not (text == "")
      then again
      else document_or (λ doc. read_document s doc (get_xray_sub_type doc)) (p.parse_json s) other
