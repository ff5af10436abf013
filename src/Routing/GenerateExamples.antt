-- ===== src/Routing/GenerateExamples.antt =====
-- Runs of the generated routing section (src/database/entities/RouteProfile.cpp) on small inputs.
use free_link_app.Common.{
  ℤ, pos, negsuc, ℤ_eq, String, String_eq, ◌≡◌, refl, true, false, Option, none, some, List, [],
  ◌∷◌, arith, ◌==◌, if◌then◌else◌, contains,
}
use free_link_app.Qt.{plain}
use free_link_app.Json.{end}
use free_link_app.Routing.Rule.{RouteRule, new_rule}
use free_link_app.Routing.Profile.{RouteProfile, new_profile}
use free_link_app.Routing.Profiles.{one_profile}
use free_link_app.Routing.Generate.{route_rules_from, get_route_rules, map_json, get_used_outbounds}
use free_link_app.Routing.Generate.RouteRules.{insert_adblock, get_route_rules-adblock}
use free_link_app.Routing.Generate.Outbounds.{get_route_rules-cong}

-- A rule for DNS, and one that routes to profile 5.
abbrev pub dns_rule : RouteRule
dns_rule = record new_rule { name = "dns"; action = "hijack-dns"; protocol = "dns" }

abbrev pub home_rule : RouteRule
home_rule = record new_rule { name = "home"; outbound_id = pos 5; network = "tcp" }

abbrev pub two_rules : List RouteRule
two_rules = dns_rule ∷ home_rule ∷ []

abbrev tags : ℤ → Option String
tags id = if id == pos 5 then some "g-5" else if id == negsuc 1 then some "direct" else none

abbrev more_tags : ℤ → Option String
more_tags id = if id == pos 8 then some "g-8" else tags id

get_route_rules-adblock_example :
    ((route_rules_from plain one_profile false tags true two_rules false).1
      ≡ map_json insert_adblock
          (route_rules_from plain one_profile false tags false two_rules false).1)
    × ((get_route_rules plain one_profile false tags true two_rules).0
        ≡ (get_route_rules plain one_profile false tags false two_rules).0)
get_route_rules-adblock_example = get_route_rules-adblock plain one_profile false tags two_rules

abbrev pub two_rule_profile : RouteProfile
two_rule_profile = record new_profile { name = "mine"; rules = two_rules }

tags-agree :
    (id : ℤ)
    → contains (get_used_outbounds (λ s. end) two_rule_profile) id ≡ true
    → tags id ≡ more_tags id
unfolding get_used_outbounds
tags-agree id h = ground arith

get_route_rules-cong_example :
    get_route_rules plain one_profile false tags true two_rules
    ≡ get_route_rules plain one_profile false more_tags true two_rules
get_route_rules-cong_example =
    get_route_rules-cong plain one_profile false true tags more_tags (λ s. end) two_rule_profile
      refl tags-agree
