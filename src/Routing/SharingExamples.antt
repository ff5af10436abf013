-- ===== src/Routing/SharingExamples.antt =====
-- Runs of the sharing of profiles (src/database/entities/RouteProfile.cpp) on small inputs.
use free_link_app.Common.{
  ℤ, pos, negsuc, ℤ_eq, String, String_eq, ◌≡◌, refl, true, false, Option, none, some, [], ◌==◌,
  if◌then◌else◌, arith, int_eq_iff,
}
use free_link_app.Qt.{plain}
use free_link_app.Text.{starts_with}
use free_link_app.Json.{num, str, obj, nil, cons, Fields, end, field}
use free_link_app.Routing.Rule.{new_rule}
use free_link_app.Routing.Rule.Values.{filter_empty}
use free_link_app.Routing.Profile.{RouteProfile, new_profile}
use free_link_app.Routing.Profiles.{Profiles, one_profile}
use free_link_app.Routing.Raw.{collect_raw_outbound_ids, collect_raw}
use free_link_app.Routing.RuleJson.{fix_action, view_outbound}
use free_link_app.Routing.Import.{get_outbound_id}
use free_link_app.Routing.Import.Tidy.{IsTidy}
use free_link_app.Routing.Generate.{skips}
use free_link_app.Routing.Share.{
  Codec, Document, object, to_share_object, to_share_link, loaded, from_share_input,
  read_share_object, text_to_object,
}
use free_link_app.Routing.Share.Names.{NamedOnBoth}
use free_link_app.Routing.Raw.Landing.{renumber, renumber_fields}
use free_link_app.Routing.Share.Rules.{Shareable}
use free_link_app.Routing.Share.RoundTrip.{
  from_share_input-raw, shared_raw_profile, shared_profile, read_share_object-to_share_object,
  Carries, from_share_input-structured,
}
use free_link_app.Routing.RemoteLink.{
  Answers, from_remote_routes_link, from_remote_routes_link-Answers,
}
use free_link_app.Routing.GenerateExamples.{dns_rule, home_rule, two_rule_profile}

-- A machine that carries one document, as "doc", under the link "b64".
abbrev carrier : Option Document → Codec
carrier d = record {
  parse_json = λ s. if s == "doc" then d else none;
  print_json = λ o. "doc";
  print_indented = λ o. "doc";
  to_base64_url = λ s. "b64";
  from_base64_url = λ s. "doc";
  from_base64 = λ s. "doc";
  is_deep_link = λ s. true;
  has_host = λ s h. true;
  is_http = λ s. starts_with s "http";
  host_of = λ s. s;
  to_lower = λ s. s;
  data_of = λ s. "b64";
}

tidy : filter_empty plain [] ≡ []
unfolding filter_empty
tidy = refl

-- A rule whose lists are empty is tidy.
bare-IsTidy :
    (name action protocol network : String) (id : ℤ)
    → IsTidy plain (record new_rule {
      name = name;
      action = action;
      protocol = protocol;
      network = network;
      outbound_id = id;
    })
bare-IsTidy name action protocol network id = record {
  inbound = tidy;
  domain = tidy;
  domain_suffix = tidy;
  domain_keyword = tidy;
  domain_regex = tidy;
  source_ip_cidr = tidy;
  ip_cidr = tidy;
  source_port_range = tidy;
  port_range = tidy;
  process_name = tidy;
  process_path = tidy;
  process_path_regex = tidy;
  wifi_ssid = tidy;
  wifi_bssid = tidy;
  rule_set = tidy;
}

-- Both machines have profile 5, "home".
two_rules-Shareable :
    (skips plain one_profile dns_rule ≡ false
      → Shareable plain one_profile one_profile (λ id. id) dns_rule)
    × ((skips plain one_profile home_rule ≡ false
          → Shareable plain one_profile one_profile (λ id. id) home_rule)
        × Unit {0})
unfolding fix_action view_outbound get_outbound_id
two_rules-Shareable = (
  λ _. record {
    tidy = bare-IsTidy "dns" "hijack-dns" "dns" "" (negsuc 1);
    lands = λ h. cc;
    named = refl;
  },
  (
    λ _. record {
      tidy = bare-IsTidy "home" "route" "" "tcp" (pos 5);
      lands = λ _. ("home", refl, refl, λ h. cc);
      named = refl;
    },
    tt,
  ),
)

read_share_object-to_share_object_example :
    read_share_object plain one_profile
      (carrier none)
      (to_share_object plain one_profile (carrier none) two_rule_profile).1
    ≡ loaded (shared_profile plain one_profile (λ id. id) two_rule_profile) [] false
read_share_object-to_share_object_example =
    read_share_object-to_share_object plain one_profile one_profile (carrier none) (λ id. id)
      two_rule_profile refl two_rules-Shareable

abbrev root : Fields
root = (to_share_object plain one_profile (carrier none) two_rule_profile).1

root-Carries :
    Carries plain
      (carrier (some (object root)))
      (to_share_object plain one_profile (carrier (some (object root))) two_rule_profile).1
unfolding to_share_object
root-Carries = record {
  payload = "b64";
  encoded = refl;
  some_payload = refl;
  trimmed_link = refl;
  some_link = refl;
  deep_link = refl;
  host = refl;
  data_part = refl;
  trimmed_payload = refl;
  no_json = refl;
  decoded = refl;
}

from_share_input-structured_example :
    from_share_input plain one_profile
      (carrier (some (object root)))
      (to_share_link plain one_profile (carrier (some (object root))) two_rule_profile).1
    ≡ loaded (shared_profile plain one_profile (λ id. id) two_rule_profile) [] false
from_share_input-structured_example =
    from_share_input-structured plain one_profile one_profile (carrier (some (object root)))
      (λ id. id) two_rule_profile refl two_rules-Shareable root-Carries

-- A raw profile, whose route has profile 5 as its final outbound, and a machine that carries a
-- document and the text of that route.
abbrev raw_profile : RouteProfile
raw_profile = record new_profile { name = "raw"; is_raw = true; raw_route = "route" }

abbrev raw_carrier : Fields → Codec
raw_carrier root = record (carrier none) {
  parse_json = λ s.
      if s == "doc"
      then some (object root)
      else if s == "route"
      then some (object (field "final" (num (pos 5)) end))
      else none;
  print_indented = λ o. "route";
}

abbrev raw_root : Fields
raw_root = (to_share_object plain one_profile (raw_carrier end) raw_profile).1

raw_root-Carries :
    Carries plain
      (raw_carrier raw_root)
      (to_share_object plain one_profile (raw_carrier raw_root) raw_profile).1
unfolding to_share_object text_to_object
raw_root-Carries = record {
  payload = "b64";
  encoded = refl;
  some_payload = refl;
  trimmed_link = refl;
  some_link = refl;
  deep_link = refl;
  host = refl;
  data_part = refl;
  trimmed_payload = refl;
  no_json = refl;
  decoded = refl;
}

-- On the other machine "home" is profile 8.
abbrev other_machine : Profiles
other_machine = record one_profile {
  id_of_name = λ name. if name == "home" then some (pos 8) else none;
}

route-NamedOnBoth :
    NamedOnBoth plain one_profile other_machine
      (λ id. pos 8)
      (collect_raw_outbound_ids (text_to_object (raw_carrier raw_root) raw_profile.raw_route))
unfolding text_to_object collect_raw_outbound_ids collect_raw
route-NamedOnBoth = record {
  apart = λ x y c d e. ground (arith, int_eq_iff (pos 5) x, int_eq_iff (pos 5) y);
  named = λ x c n. rw⁻¹ ((int_eq_iff (pos 5) x).0 (ground arith)) ("home", refl, refl, refl);
}

from_share_input-raw_example :
    from_share_input plain other_machine
      (raw_carrier raw_root)
      (to_share_link plain one_profile (raw_carrier raw_root) raw_profile).1
    ≡ loaded (shared_raw_profile (raw_carrier raw_root) (λ id. pos 8) raw_profile) [] false
from_share_input-raw_example =
    from_share_input-raw plain one_profile other_machine (raw_carrier raw_root) (λ id. pos 8)
      raw_profile refl route-NamedOnBoth raw_root-Carries

abbrev renumbered : Fields
renumbered = field "final" (num (pos 8)) end

route_renumbered :
    renumber_fields (λ id. pos 8) (text_to_object (raw_carrier raw_root) "route") ≡ renumbered
unfolding renumber text_to_object
route_renumbered = refl

-- A list of one profile with an address and one without.
abbrev listed_routes : Document
listed_routes = Document.array (
    cons (obj (field "url" (str "https://a.org/r") end))
      (cons (obj (field "url" (str "ftp://b") end)) nil))

from_remote_routes_link-Answers_example :
    Answers plain (carrier (some listed_routes)) (
      from_remote_routes_link plain
        (carrier (some listed_routes))
        "freelink://remoteroute?data=b64")
from_remote_routes_link-Answers_example =
    from_remote_routes_link-Answers plain (carrier (some listed_routes))
      "freelink://remoteroute?data=b64"
