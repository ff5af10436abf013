-- ===== src/Routing/Rule/Seeding.antt =====
-- Which attribute tabs a rule opens with (src/database/entities/RouteRule.cpp).
use free_link_app.Common.{
  String, String_eq, ℤ_eq, ◌≡◌, refl, Bool, true, false, not, ◌&&◌, ◌||◌, List, [], ◌∷◌, ◌==◌,
  arith, contains, Option-cases, inl, inr, if_rule,
}
use text.Mathlib.TextEquality.{eq_iff}
use free_link_app.Qt.{Qt}
use free_link_app.Routing.Attribute.{Attribute, attribute_of}
use free_link_app.Routing.Rule.{RouteRule}
use free_link_app.Routing.Rule.Values.{OperatingSystem, tab_attributes, value_of}
use free_link_app.Routing.Rule.Tabs.{
  is_attribute_at_default, at_default, insert_visible, seed_tabs,
  ensure_ui_visible_attribute_tabs_seeded,
}

-- Whether an attribute is set does not depend on which tabs are shown.
is_attribute_at_default_tabs :
    (q : Qt) (a : Attribute) (r : RouteRule) (v : List String) (b : Bool)
    → is_attribute_at_default q a
        (record r { ui_visible_attributes = v; ui_attribute_tabs_seeded = b })
      ≡ is_attribute_at_default q a r
unfolding is_attribute_at_default value_of
is_attribute_at_default_tabs q Attribute.ip_version r v b = refl
is_attribute_at_default_tabs q Attribute.network r v b = refl
is_attribute_at_default_tabs q Attribute.protocol r v b = refl
is_attribute_at_default_tabs q Attribute.inbound r v b = refl
is_attribute_at_default_tabs q Attribute.domain r v b = refl
is_attribute_at_default_tabs q Attribute.domain_suffix r v b = refl
is_attribute_at_default_tabs q Attribute.domain_keyword r v b = refl
is_attribute_at_default_tabs q Attribute.domain_regex r v b = refl
is_attribute_at_default_tabs q Attribute.source_ip_cidr r v b = refl
is_attribute_at_default_tabs q Attribute.source_ip_is_private r v b = refl
is_attribute_at_default_tabs q Attribute.ip_cidr r v b = refl
is_attribute_at_default_tabs q Attribute.ip_is_private r v b = refl
is_attribute_at_default_tabs q Attribute.source_port r v b = refl
is_attribute_at_default_tabs q Attribute.source_port_range r v b = refl
is_attribute_at_default_tabs q Attribute.port r v b = refl
is_attribute_at_default_tabs q Attribute.port_range r v b = refl
is_attribute_at_default_tabs q Attribute.process_name r v b = refl
is_attribute_at_default_tabs q Attribute.process_path r v b = refl
is_attribute_at_default_tabs q Attribute.process_path_regex r v b = refl
is_attribute_at_default_tabs q Attribute.wifi_ssid r v b = refl
is_attribute_at_default_tabs q Attribute.wifi_bssid r v b = refl
is_attribute_at_default_tabs q Attribute.rule_set r v b = refl
is_attribute_at_default_tabs q Attribute.invert r v b = refl
is_attribute_at_default_tabs q Attribute.action r v b = refl
is_attribute_at_default_tabs q Attribute.outbound r v b = refl
is_attribute_at_default_tabs q Attribute.override_address r v b = refl
is_attribute_at_default_tabs q Attribute.override_port r v b = refl
is_attribute_at_default_tabs q Attribute.method r v b = refl
is_attribute_at_default_tabs q Attribute.no_drop r v b = refl
is_attribute_at_default_tabs q Attribute.override_destination r v b = refl
is_attribute_at_default_tabs q Attribute.strategy r v b = refl

at_default_tabs :
    (q : Qt) (a : String) (r : RouteRule) (v : List String) (b : Bool)
    → at_default q a (record r { ui_visible_attributes = v; ui_attribute_tabs_seeded = b })
      ≡ at_default q a r
unfolding at_default
at_default_tabs q a r v b = elim (Option-cases (attribute_of a)) [
  | inl e ↦ rw (e, at_default)
  | inr (x, e) ↦ rw (e, at_default) (is_attribute_at_default_tabs q x r v b)
]

contains-insert_visible :
    (a b : String) (v : List String) → contains (insert_visible a v) b ≡ (a == b || contains v b)
contains-insert_visible a b v = ground (arith, eq_iff a b)

seed_tabs-shows :
    (q : Qt) (x : String) (as' : List String) (r : RouteRule)
    → contains (seed_tabs q as' r).ui_visible_attributes x
      ≡ (contains r.ui_visible_attributes x || contains as' x && not (at_default q x r))
unfolding seed_tabs
seed_tabs-shows q x [] r = ground arith
seed_tabs-shows q x (a ∷ as') r = ground (
  arith,
  seed_tabs-shows q x as' r,
  seed_tabs-shows q x as'
      (record r { ui_visible_attributes = insert_visible a r.ui_visible_attributes }),
  contains-insert_visible a x r.ui_visible_attributes,
  at_default_tabs q x r (insert_visible a r.ui_visible_attributes) r.ui_attribute_tabs_seeded,
  eq_iff a x,
)

seeded-seed_tabs :
    (q : Qt) (as' : List String) (r : RouteRule)
    → (seed_tabs q as' r).ui_attribute_tabs_seeded ≡ r.ui_attribute_tabs_seeded
unfolding seed_tabs
seeded-seed_tabs q [] r = refl
seeded-seed_tabs q (a ∷ as') r =
    if_rule (λ s. (seed_tabs q as' s).ui_attribute_tabs_seeded ≡ r.ui_attribute_tabs_seeded)
      (at_default q a r) r _ (seeded-seed_tabs q as' r) (seeded-seed_tabs q as' _)

-- A rule whose tabs were not chosen yet opens with the tabs that were shown and with those of the
-- platform's attributes that are not at their default, and with no others; opening it again changes
-- nothing.
pub ensure_ui_visible_attribute_tabs_seeded-shows :
    (q : Qt) (os : OperatingSystem) (x : String) (r : RouteRule)
    → r.ui_attribute_tabs_seeded ≡ false
    → let s = ensure_ui_visible_attribute_tabs_seeded q os r in
      (contains s.ui_visible_attributes x ≡ (
        contains r.ui_visible_attributes x
        || contains (tab_attributes os) x && not (at_default q x r)))
      × (ensure_ui_visible_attribute_tabs_seeded q os s ≡ s)
unfolding ensure_ui_visible_attribute_tabs_seeded
ensure_ui_visible_attribute_tabs_seeded-shows q os x r h =
    let t = record r { ui_attribute_tabs_seeded = true } in
    (
      ground (
        arith,
        seed_tabs-shows q x (tab_attributes os) t,
        at_default_tabs q x r r.ui_visible_attributes true,
      ),
      ground (arith, seeded-seed_tabs q (tab_attributes os) t),
    )
