-- ===== src/Routing/RemoteLink.antt =====
-- `FromRemoteRoutesLink` of src/database/entities/RouteProfile.cpp.
use free_link_app.Common.{
  ◌≡◌, refl, pos, negsuc, ℤ_eq, String, String_eq, Bool, true, false, not, ◌||◌, Option, none, some,
  List, [], ◌∷◌, ◌==◌, if◌then◌else◌, is_none, is_empty, All, arith, if_split, if_rule,
}
use free_link_app.Qt.{Qt}
use free_link_app.Json.{
  Json, null, bool, num, str, arr, obj, Items, nil, cons, Fields, get_key, text_at, array_at,
}
use free_link_app.Routing.Profile.{RouteProfile, new_profile}
use free_link_app.Routing.Share.{Codec, Document, object, array}

-- The profiles, *wasRemoteRouteLink and *error.
pub record RemoteLink : Type 0 where
  pub profiles : List RouteProfile
  pub was_remote_route_link : Bool
  pub link_error : Option String

abbrev pub is_empty_array : Items → Bool
is_empty_array nil = true
is_empty_array (cons v vs) = false

module _ (q : Qt) (k : Codec) where
  abbrev listed : Option Document → Items
  listed none = nil
  listed (some (array vs)) = vs
  listed (some (object o)) = array_at "routes" o

  -- The lambda `parseArray`.
  unfoldable pub parse_array : String → Items
  parse_array s = listed (k.parse_json s)

  -- The JSON list in the data: plain, else base64 for URLs, else standard base64.
  unfoldable pub link_items : String → Items
  unfolding parse_array
  link_items s =
      let plain = parse_array s in
      let url_safe = parse_array (k.from_base64_url s) in
      if not (is_empty_array plain)
      then plain
      else if not (is_empty_array url_safe)
      then url_safe
      else parse_array (k.from_base64 s)

  abbrev or_value : Option Json → Option Json → Option Json
  or_value none v = v
  or_value (some v) w = some v

  abbrev says_yes : Option Json → Bool
  says_yes (some (bool b)) = b
  says_yes (some (num n)) = not (n == pos 0)
  says_yes (some (str t)) =
      let s = k.to_lower (q.trimmed t) in s == "1" || (s == "true" || (s == "on" || s == "yes"))
  says_yes _ = false

  -- The setting under any of its three names.
  unfoldable pub auto_update_of : Fields → Bool
  auto_update_of o = says_yes (
      or_value (get_key "auto_update" o)
        (or_value (get_key "autoUpdate" o) (get_key "autoupdate" o)))

  unfoldable pub remote_profile : Fields → RouteProfile
  unfolding auto_update_of
  remote_profile o =
      let url = q.trimmed (text_at "url" o) in
      let name = q.trimmed (text_at "name" o) in
      record new_profile {
        is_remote = true;
        remote_url = url;
        auto_update = auto_update_of o;
        name = if name == "" then k.host_of url else name;
      }

  -- The loop over the list.
  unfoldable pub remote_profiles : Items → List RouteProfile
  unfolding remote_profile
  remote_profiles nil = []
  remote_profiles (cons (obj o) vs) =
      let rest = remote_profiles vs in
      if not (k.is_http (q.trimmed (text_at "url" o))) then rest else remote_profile o ∷ rest
  remote_profiles (cons v vs) = remote_profiles vs

  abbrev found : List RouteProfile → RemoteLink
  found ps = record {
    profiles = ps;
    was_remote_route_link = true;
    link_error =
        if is_empty ps
        then some "The link did not contain any valid http(s) routing profile URLs."
        else none;
  }

  abbrev failed : String → RemoteLink
  failed e = record { profiles = []; was_remote_route_link = true; link_error = some e }

  abbrev no_link : RemoteLink
  no_link = record { profiles = []; was_remote_route_link = false; link_error = none }

  -- FromRemoteRoutesLink
  unfoldable pub from_remote_routes_link : String → RemoteLink
  unfolding link_items remote_profiles
  from_remote_routes_link input =
      let text = q.trimmed input in
      let data_param = q.trimmed (k.data_of text) in
      if not (k.is_deep_link text)
      then no_link
      else if not (k.has_host text "remoteroute")
      then no_link
      else if data_param == ""
      then failed "The link did not contain any data."
      else if is_empty_array (link_items data_param)
      then failed "The link data is not a valid list of remote routing profiles."
      else found (remote_profiles (link_items data_param))

  -- What a profile from a link is: remote, unsaved, without rules, with an http(s) address.
  abbrev pub IsRemote : RouteProfile → Type 0
  IsRemote c =
      (c.is_remote ≡ true)
      × (c.id ≡ negsuc 0)
      × (is_empty c.rules ≡ true)
      × (k.is_http c.remote_url ≡ true)

  remote_profiles-IsRemote : (vs : Items) → All IsRemote (remote_profiles vs)
  unfolding remote_profiles
  remote_profiles-IsRemote nil = tt
  remote_profiles-IsRemote (cons (obj o) vs) =
      if_split (All IsRemote) (not (k.is_http (q.trimmed (text_at "url" o)))) _ _
        (λ _. remote_profiles-IsRemote vs)
        (λ h. ((refl, refl, refl, ground arith), remote_profiles-IsRemote vs))
  remote_profiles-IsRemote (cons null vs) = remote_profiles-IsRemote vs
  remote_profiles-IsRemote (cons (bool b) vs) = remote_profiles-IsRemote vs
  remote_profiles-IsRemote (cons (num n) vs) = remote_profiles-IsRemote vs
  remote_profiles-IsRemote (cons (str s) vs) = remote_profiles-IsRemote vs
  remote_profiles-IsRemote (cons (arr us) vs) = remote_profiles-IsRemote vs

  -- Profiles or an error, never both; an input that is no such link gives neither.
  abbrev pub Answers : RemoteLink → Type 0
  Answers l =
      All IsRemote l.profiles
      × (is_none l.link_error ≡ (not l.was_remote_route_link || not (is_empty l.profiles)))
      × (is_empty l.profiles || l.was_remote_route_link ≡ true)

  found-Answers : (ps : List RouteProfile) → All IsRemote ps → Answers (found ps)
  found-Answers [] h = (tt, refl, refl)
  found-Answers (c ∷ cs) h = (h, refl, refl)

-- Every profile that is read from a link of remote routes is a new remote profile without rules whose
-- address is an http(s) one. A link without a profile gives an error and one with a profile gives
-- none; an input that is no such link gives neither profile nor error.
pub from_remote_routes_link-Answers :
    (q : Qt) (k : Codec) (input : String) → Answers q k (from_remote_routes_link q k input)
unfolding from_remote_routes_link
from_remote_routes_link-Answers q k input =
    let P = Answers q k in
    let items = link_items q k (q.trimmed (k.data_of (q.trimmed input))) in
    if_rule P (not (k.is_deep_link (q.trimmed input))) _ _ (tt, refl, refl)
      (if_rule P (not (k.has_host (q.trimmed input) "remoteroute")) _ _ (tt, refl, refl)
        (if_rule P (q.trimmed (k.data_of (q.trimmed input)) == "") _ _ (tt, refl, refl)
          (if_rule P (is_empty_array items) _ _ (tt, refl, refl)
            (found-Answers q k (remote_profiles q k items) (remote_profiles-IsRemote q k items)))))
