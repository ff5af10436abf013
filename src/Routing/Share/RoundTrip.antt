-- ===== src/Routing/Share/RoundTrip.antt =====
-- Profiles that are shared and read back (src/database/entities/RouteProfile.cpp).
use free_link_app.Common.{
  ◌≡◌, refl, ap, ◌∙◌, ℤ, ℤ_eq, String, String_eq, true, false, not, none, some, [], map, ◌==◌, All,
  keep, ◌<>◌, ◌||◌, int_eq_iff, if◌then◌else◌, Bool-cases, inl, inr,
}
use free_link_app.Qt.{Qt}
use free_link_app.Json.{Fields, end, get_key}
use free_link_app.Routing.RuleType.{
  outbound_id_to_string, string_to_outbound_id, proxy_id, direct_id, block_id, warp_bypass_id,
}
use free_link_app.Routing.Profile.{RouteProfile, new_profile}
use free_link_app.Routing.Profiles.{Profiles}
use free_link_app.Routing.Raw.{collect_raw_outbound_ids, collect_raw}
use free_link_app.Routing.Raw.Landing.{renumber_fields, remap_fields-landed}
use free_link_app.Routing.Generate.{skips}
use free_link_app.Routing.Share.{
  Codec, object, text_to_object, outbound_names, share_rules, structured_root, to_share_object,
  to_share_link, loaded, read_share_object, resolve_document, from_share_input,
}
use free_link_app.Routing.Share.Names.{NamedOnBoth, outbound_names-Lands}
use free_link_app.Routing.Share.Rules.{Shareable, came_over, read_rules-share_rules}

-- The default outbound of a profile comes over where it is the proxy, the direct one, the block or the
-- WARP bypass, and becomes the proxy otherwise.
unfoldable pub default_that_lands : ℤ → ℤ
default_that_lands id =
    if id == proxy_id || (id == direct_id || (id == block_id || id == warp_bypass_id))
    then id
    else proxy_id

string_to_outbound_id-outbound_id_to_string :
    (id : ℤ) → string_to_outbound_id (outbound_id_to_string id) ≡ default_that_lands id
unfolding string_to_outbound_id outbound_id_to_string default_that_lands
string_to_outbound_id-outbound_id_to_string id = elim (Bool-cases (id == proxy_id)) [
  | inl e ↦ rw ((int_eq_iff id proxy_id).0 e) refl
  | inr p ↦ elim (Bool-cases (id == direct_id)) [
    | inl e ↦ rw ((int_eq_iff id direct_id).0 e) refl
    | inr d ↦ elim (Bool-cases (id == block_id)) [
      | inl e ↦ rw ((int_eq_iff id block_id).0 e) refl
      | inr b ↦ elim (Bool-cases (id == warp_bypass_id)) [
        | inl e ↦ rw ((int_eq_iff id warp_bypass_id).0 e) refl
        | inr w ↦ rw (p, d, b, w) refl
      ]
    ]
  ]
]

-- A structured profile comes over with its name, its default outbound if that is one that lands and
-- the proxy otherwise, and the rules that sharing keeps, each as it comes over.
abbrev pub shared_profile : Qt → Profiles → (ℤ → ℤ) → RouteProfile → RouteProfile
shared_profile q p land c = record new_profile {
  name = c.name;
  default_outbound_id = default_that_lands c.default_outbound_id;
  rules = map (came_over land) (keep (λ r. not (skips q p r)) c.rules);
}

structured_object :
    (q : Qt) (p : Profiles) (k : Codec) (c : RouteProfile)
    → c.is_raw ≡ false
    → (to_share_object q p k c).1
      ≡ structured_root q p c.name
          (outbound_id_to_string c.default_outbound_id)
          (share_rules q p c.rules).1
unfolding to_share_object
structured_object q p k c e = rw e refl

read_structured :
    (q : Qt) (p p' : Profiles) (k : Codec) (land : ℤ → ℤ) (c : RouteProfile)
    → All (λ r. skips q p r ≡ false → Shareable q p p' land r) c.rules
    → read_share_object q p' k (
        structured_root q p c.name
          (outbound_id_to_string c.default_outbound_id)
          (share_rules q p c.rules).1)
      ≡ loaded (shared_profile q p land c) [] false
unfolding read_share_object get_key
read_structured q p p' k land c h =
    rw
      (
        read_rules-share_rules q p p' land c.rules 1 [] h,
        string_to_outbound_id-outbound_id_to_string c.default_outbound_id,
      )
      refl

-- A structured profile whose kept rules are shareable is read back from its share object with its
-- name, its default outbound if that is the proxy, the direct one, the block or the WARP bypass and
-- the proxy otherwise, and the kept rules as each comes over, without a warning.
pub read_share_object-to_share_object :
    (q : Qt) (p p' : Profiles) (k : Codec) (land : ℤ → ℤ) (c : RouteProfile)
    → c.is_raw ≡ false
    → All (λ r. skips q p r ≡ false → Shareable q p p' land r) c.rules
    → read_share_object q p' k (to_share_object q p k c).1
      ≡ loaded (shared_profile q p land c) [] false
read_share_object-to_share_object q p p' k land c e h =
    ap (read_share_object q p' k) (structured_object q p k c e) ∙ read_structured q p p' k land c h

-- What the link of an object goes through: the URL is taken apart again, its base64 is no JSON and
-- decodes to what was encoded, and the printed object parses.
pub record Carries (q : Qt) (k : Codec) (root : Fields) : Type 0 where
  pub payload : String
  pub encoded : k.to_base64_url (k.print_json root) ≡ payload
  pub some_payload : (payload == "") ≡ false
  pub trimmed_link :
      q.trimmed ("freelink://route?data=" <> payload) ≡ "freelink://route?data=" <> payload
  pub some_link : ("freelink://route?data=" <> payload == "") ≡ false
  pub deep_link : k.is_deep_link ("freelink://route?data=" <> payload) ≡ true
  pub host : k.has_host ("freelink://route?data=" <> payload) "route" ≡ true
  pub data_part : k.data_of ("freelink://route?data=" <> payload) ≡ payload
  pub trimmed_payload : q.trimmed payload ≡ payload
  pub no_json : k.parse_json payload ≡ none
  pub decoded : k.parse_json (k.from_base64_url payload) ≡ some (object root)

-- A share link that the URL and text functions carry is read as the object that it was made of.
from_share_input-to_share_link :
    (q : Qt) (p p' : Profiles) (k : Codec) (c : RouteProfile)
    → Carries q k (to_share_object q p k c).1
    → from_share_input q p' k (to_share_link q p k c).1
      ≡ read_share_object q p' k (to_share_object q p k c).1
unfolding from_share_input to_share_link resolve_document
from_share_input-to_share_link q p p' k c t =
    rw
      (
        t.encoded, t.trimmed_link, t.some_link, t.deep_link, t.host, t.data_part, t.trimmed_payload,
        t.some_payload, t.no_json, t.decoded,
      )
      refl

-- The share link of a structured profile whose kept rules are shareable is read with the name, the
-- default outbound (where that is the proxy, the direct one, the block or the WARP bypass, and the
-- proxy otherwise) and the kept rules as each comes over, without a warning, if the URL and text
-- functions carry the link.
pub from_share_input-structured :
    (q : Qt) (p p' : Profiles) (k : Codec) (land : ℤ → ℤ) (c : RouteProfile)
    → c.is_raw ≡ false
    → All (λ r. skips q p r ≡ false → Shareable q p p' land r) c.rules
    → Carries q k (to_share_object q p k c).1
    → from_share_input q p' k (to_share_link q p k c).1
      ≡ loaded (shared_profile q p land c) [] false
from_share_input-structured q p p' k land c e h t =
    from_share_input-to_share_link q p p' k c t
    ∙ read_share_object-to_share_object q p p' k land c e h

-- A raw profile comes over with its name, its flag against changes and its route, the references of
-- which are renumbered.
abbrev pub shared_raw_profile : Codec → (ℤ → ℤ) → RouteProfile → RouteProfile
shared_raw_profile k land c = record new_profile {
  is_raw = true;
  name = c.name;
  prevent_modifications = c.prevent_modifications;
  raw_route = k.print_indented (renumber_fields land (text_to_object k c.raw_route));
}

read_share_object-raw :
    (q : Qt) (p p' : Profiles) (k : Codec) (land : ℤ → ℤ) (c : RouteProfile)
    → c.is_raw ≡ true
    → NamedOnBoth q p p' land (collect_raw_outbound_ids (text_to_object k c.raw_route))
    → read_share_object q p' k (to_share_object q p k c).1
      ≡ loaded (shared_raw_profile k land c) [] false
unfolding to_share_object read_share_object get_key collect_raw_outbound_ids collect_raw
read_share_object-raw q p p' k land c e h =
    let route = text_to_object k c.raw_route in
    let ids = collect_raw_outbound_ids route in
    let (same, calm) =
      remap_fields-landed q p' (outbound_names q p ids end) land route []
        (outbound_names-Lands q p p' land ids h) in
    rw (e, same, calm) refl

-- The share link of a raw profile is read, if the URL and text functions carry the link, as a raw
-- profile with its name, its flag against changes and its route, without a warning, where the profiles
-- that the route refers to are written as different numbers and each has a name, not the empty one,
-- under which the importing machine finds a profile: in the route, at any depth, each of these numbers
-- is replaced by that of the profile found, and the reserved ones stay.
pub from_share_input-raw :
    (q : Qt) (p p' : Profiles) (k : Codec) (land : ℤ → ℤ) (c : RouteProfile)
    → c.is_raw ≡ true
    → NamedOnBoth q p p' land (collect_raw_outbound_ids (text_to_object k c.raw_route))
    → Carries q k (to_share_object q p k c).1
    → from_share_input q p' k (to_share_link q p k c).1
      ≡ loaded (shared_raw_profile k land c) [] false
from_share_input-raw q p p' k land c e h t =
    from_share_input-to_share_link q p p' k c t ∙ read_share_object-raw q p p' k land c e h
