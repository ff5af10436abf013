-- ===== src/Routing/Rule/Editing.antt =====
-- What the rule editor relies on (src/database/entities/RouteRule.cpp): a written attribute reads back,
-- no other attribute changes.
use free_link_app.Common.{
  ℕ, nat_eq, String, String_eq, ℤ_eq, ◌≡◌, Bool, true, false, not, ◌&&◌, none, some, List, [], ◌∷◌,
  is_empty, is_none, ◌==◌, if◌then◌else◌, arith, refl, keep, map,
}
use free_link_app.Qt.{Qt}
use free_link_app.Routing.Attribute.{Attribute, name_of, attribute_of-name_of}
use free_link_app.Routing.Rule.{RouteRule}
use free_link_app.Routing.Rule.Values.{
  filter_empty, value_of, bool_value_of, set_attribute, set_field_value,
}

-- What the editor shows for an attribute: the truth value, or the list of texts.
unfoldable pub shown : Qt → Attribute → RouteRule → List String
unfolding value_of bool_value_of
shown q a r = elim (bool_value_of a r) [ none ↦ value_of q a r | some b ↦ b ∷ [] ]

-- A list of texts without the blank ones, the others trimmed.
abbrev pub tidied : Qt → List String → List String
tidied q v = keep (λ s. not (s == "")) (map q.trimmed v)

filter_empty-tidied : (q : Qt) (v : List String) → filter_empty q v ≡ tidied q v
unfolding filter_empty
filter_empty-tidied q [] = refl
filter_empty-tidied q (s ∷ v) = ground (arith, filter_empty-tidied q v)

-- What a written list of texts stands for.
unfoldable pub meant : Qt → Attribute → List String → List String
meant q Attribute.ip_version [] = []
meant q Attribute.ip_version (x ∷ xs) = x ∷ []
meant q Attribute.network [] = []
meant q Attribute.network (x ∷ xs) = x ∷ []
meant q Attribute.protocol [] = []
meant q Attribute.protocol (x ∷ xs) = x ∷ []
meant q Attribute.inbound v = tidied q v
meant q Attribute.domain v = tidied q v
meant q Attribute.domain_suffix v = tidied q v
meant q Attribute.domain_keyword v = tidied q v
meant q Attribute.domain_regex v = tidied q v
meant q Attribute.source_ip_cidr v = tidied q v
meant q Attribute.source_ip_is_private [] = []
meant q Attribute.source_ip_is_private (x ∷ xs) = (if x == "true" then "true" else "false") ∷ []
meant q Attribute.ip_cidr v = tidied q v
meant q Attribute.ip_is_private [] = []
meant q Attribute.ip_is_private (x ∷ xs) = (if x == "true" then "true" else "false") ∷ []
meant q Attribute.source_port v = tidied q v
meant q Attribute.source_port_range v = tidied q v
meant q Attribute.port v = tidied q v
meant q Attribute.port_range v = tidied q v
meant q Attribute.process_name v = tidied q v
meant q Attribute.process_path v = tidied q v
meant q Attribute.process_path_regex v = tidied q v
meant q Attribute.wifi_ssid v = tidied q v
meant q Attribute.wifi_bssid v = tidied q v
meant q Attribute.rule_set v = tidied q v
meant q Attribute.invert [] = []
meant q Attribute.invert (x ∷ xs) = (if x == "true" then "true" else "false") ∷ []
meant q Attribute.action [] = []
meant q Attribute.action (x ∷ xs) = x ∷ []
meant q Attribute.outbound [] = []
meant q Attribute.outbound (x ∷ xs) = q.number (q.to_int x) ∷ []
meant q Attribute.override_address [] = []
meant q Attribute.override_address (x ∷ xs) = x ∷ []
meant q Attribute.override_port [] = []
meant q Attribute.override_port (x ∷ xs) = x ∷ []
meant q Attribute.method [] = []
meant q Attribute.method (x ∷ xs) = x ∷ []
meant q Attribute.no_drop [] = []
meant q Attribute.no_drop (x ∷ xs) = (if x == "true" then "true" else "false") ∷ []
meant q Attribute.override_destination [] = []
meant q Attribute.override_destination (x ∷ xs) = (if x == "true" then "true" else "false") ∷ []
meant q Attribute.strategy [] = []
meant q Attribute.strategy (x ∷ xs) = x ∷ []

-- The place of an attribute in its enumeration, to compare two of them.
abbrev pub place : Attribute → ℕ
place Attribute.ip_version = 0
place Attribute.network = 1
place Attribute.protocol = 2
place Attribute.inbound = 3
place Attribute.domain = 4
place Attribute.domain_suffix = 5
place Attribute.domain_keyword = 6
place Attribute.domain_regex = 7
place Attribute.source_ip_cidr = 8
place Attribute.source_ip_is_private = 9
place Attribute.ip_cidr = 10
place Attribute.ip_is_private = 11
place Attribute.source_port = 12
place Attribute.source_port_range = 13
place Attribute.port = 14
place Attribute.port_range = 15
place Attribute.process_name = 16
place Attribute.process_path = 17
place Attribute.process_path_regex = 18
place Attribute.wifi_ssid = 19
place Attribute.wifi_bssid = 20
place Attribute.rule_set = 21
place Attribute.invert = 22
place Attribute.action = 23
place Attribute.outbound = 24
place Attribute.override_address = 25
place Attribute.override_port = 26
place Attribute.method = 27
place Attribute.no_drop = 28
place Attribute.override_destination = 29
place Attribute.strategy = 30

abbrev pub same_attribute : Attribute → Attribute → Bool
same_attribute a b = nat_eq (place a) (place b)

-- The attributes whose value is a list of texts.
abbrev pub takes_list : Attribute → Bool
takes_list Attribute.inbound = true
takes_list Attribute.domain = true
takes_list Attribute.domain_suffix = true
takes_list Attribute.domain_keyword = true
takes_list Attribute.domain_regex = true
takes_list Attribute.source_ip_cidr = true
takes_list Attribute.ip_cidr = true
takes_list Attribute.source_port = true
takes_list Attribute.source_port_range = true
takes_list Attribute.port = true
takes_list Attribute.port_range = true
takes_list Attribute.process_name = true
takes_list Attribute.process_path = true
takes_list Attribute.process_path_regex = true
takes_list Attribute.wifi_ssid = true
takes_list Attribute.wifi_bssid = true
takes_list Attribute.rule_set = true
takes_list _ = false

set_attribute-shown :
    (q : Qt) (a b : Attribute) (v : List String) (r s : RouteRule)
    → set_attribute q a v r ≡ some s
    → shown q b s ≡ (if same_attribute a b then meant q a v else shown q b r)
unfolding set_attribute shown meant
set_attribute-shown q Attribute.ip_version b v r s h = ground arith
set_attribute-shown q Attribute.network b v r s h = ground arith
set_attribute-shown q Attribute.protocol b v r s h = ground arith
set_attribute-shown q Attribute.inbound b v r s h = ground (arith, filter_empty-tidied q v)
set_attribute-shown q Attribute.domain b v r s h = ground (arith, filter_empty-tidied q v)
set_attribute-shown q Attribute.domain_suffix b v r s h = ground (arith, filter_empty-tidied q v)
set_attribute-shown q Attribute.domain_keyword b v r s h = ground (arith, filter_empty-tidied q v)
set_attribute-shown q Attribute.domain_regex b v r s h = ground (arith, filter_empty-tidied q v)
set_attribute-shown q Attribute.source_ip_cidr b v r s h = ground (arith, filter_empty-tidied q v)
set_attribute-shown q Attribute.source_ip_is_private b v r s h = ground arith
set_attribute-shown q Attribute.ip_cidr b v r s h = ground (arith, filter_empty-tidied q v)
set_attribute-shown q Attribute.ip_is_private b v r s h = ground arith
set_attribute-shown q Attribute.source_port b v r s h = ground (arith, filter_empty-tidied q v)
set_attribute-shown q Attribute.source_port_range b v r s h =
    ground (arith, filter_empty-tidied q v)
set_attribute-shown q Attribute.port b v r s h = ground (arith, filter_empty-tidied q v)
set_attribute-shown q Attribute.port_range b v r s h = ground (arith, filter_empty-tidied q v)
set_attribute-shown q Attribute.process_name b v r s h = ground (arith, filter_empty-tidied q v)
set_attribute-shown q Attribute.process_path b v r s h = ground (arith, filter_empty-tidied q v)
set_attribute-shown q Attribute.process_path_regex b v r s h =
    ground (arith, filter_empty-tidied q v)
set_attribute-shown q Attribute.wifi_ssid b v r s h = ground (arith, filter_empty-tidied q v)
set_attribute-shown q Attribute.wifi_bssid b v r s h = ground (arith, filter_empty-tidied q v)
set_attribute-shown q Attribute.rule_set b v r s h = ground (arith, filter_empty-tidied q v)
set_attribute-shown q Attribute.invert b v r s h = ground arith
set_attribute-shown q Attribute.action b v r s h = ground arith
set_attribute-shown q Attribute.outbound b v r s h = ground arith
set_attribute-shown q Attribute.override_address b v r s h = ground arith
set_attribute-shown q Attribute.override_port b v r s h = ground arith
set_attribute-shown q Attribute.method b v r s h = ground arith
set_attribute-shown q Attribute.no_drop b v r s h = ground arith
set_attribute-shown q Attribute.override_destination b v r s h = ground arith
set_attribute-shown q Attribute.strategy b v r s h = ground arith

-- After a write to a named attribute that does not fault, the editor shows for that attribute what
-- the written texts stand for (trimmed, without blanks, where it holds a list), and for every other
-- attribute what it showed before.
pub set_field_value-shown :
    (q : Qt) (a b : Attribute) (v : List String) (r s : RouteRule)
    → set_field_value q (name_of a) v r ≡ some s
    → shown q b s ≡ (if same_attribute a b then meant q a v else shown q b r)
unfolding set_field_value
set_field_value-shown q a b v r s h =
    set_attribute-shown q a b v r s (rw (attribute_of-name_of a, set_field_value) at h)

set_attribute-faults :
    (q : Qt) (a : Attribute) (v : List String) (r : RouteRule)
    → is_none (set_attribute q a v r) ≡ (is_empty v && not (takes_list a))
unfolding set_attribute
set_attribute-faults q Attribute.ip_version v r = ground arith
set_attribute-faults q Attribute.network v r = ground arith
set_attribute-faults q Attribute.protocol v r = ground arith
set_attribute-faults q Attribute.inbound v r = ground arith
set_attribute-faults q Attribute.domain v r = ground arith
set_attribute-faults q Attribute.domain_suffix v r = ground arith
set_attribute-faults q Attribute.domain_keyword v r = ground arith
set_attribute-faults q Attribute.domain_regex v r = ground arith
set_attribute-faults q Attribute.source_ip_cidr v r = ground arith
set_attribute-faults q Attribute.source_ip_is_private v r = ground arith
set_attribute-faults q Attribute.ip_cidr v r = ground arith
set_attribute-faults q Attribute.ip_is_private v r = ground arith
set_attribute-faults q Attribute.source_port v r = ground arith
set_attribute-faults q Attribute.source_port_range v r = ground arith
set_attribute-faults q Attribute.port v r = ground arith
set_attribute-faults q Attribute.port_range v r = ground arith
set_attribute-faults q Attribute.process_name v r = ground arith
set_attribute-faults q Attribute.process_path v r = ground arith
set_attribute-faults q Attribute.process_path_regex v r = ground arith
set_attribute-faults q Attribute.wifi_ssid v r = ground arith
set_attribute-faults q Attribute.wifi_bssid v r = ground arith
set_attribute-faults q Attribute.rule_set v r = ground arith
set_attribute-faults q Attribute.invert v r = ground arith
set_attribute-faults q Attribute.action v r = ground arith
set_attribute-faults q Attribute.outbound v r = ground arith
set_attribute-faults q Attribute.override_address v r = ground arith
set_attribute-faults q Attribute.override_port v r = ground arith
set_attribute-faults q Attribute.method v r = ground arith
set_attribute-faults q Attribute.no_drop v r = ground arith
set_attribute-faults q Attribute.override_destination v r = ground arith
set_attribute-faults q Attribute.strategy v r = ground arith

-- A write to a named attribute reads outside its argument exactly when the argument is empty and
-- the attribute is no list.
pub set_field_value-faults :
    (q : Qt) (a : Attribute) (v : List String) (r : RouteRule)
    → is_none (set_field_value q (name_of a) v r) ≡ (is_empty v && not (takes_list a))
unfolding set_field_value
set_field_value-faults q a v r =
    rw (attribute_of-name_of a, set_field_value) (set_attribute-faults q a v r)
