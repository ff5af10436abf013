-- ===== src/Routing/RuleJson/Emptiness.antt =====
-- When `isEmpty` of src/database/entities/RouteRule.cpp calls a rule empty.
use free_link_app.Common.{
  ◌≤◌, String, String_eq, ℤ_eq, ◌≡◌, refl, Bool, true, false, List, [], ◌∷◌, ◌++◌, if◌then◌else◌,
  arith, ◌≢◌, if_rule,
}
use text.Mathlib.TextEquality.{eq_iff}
use free_link_app.Qt.{Qt}
use free_link_app.Json.{Json, Fields, end, count_keys, num}
use free_link_app.Routing.RuleType.{is_custom}
use free_link_app.Routing.Rule.{RouteRule}
use free_link_app.Routing.Profiles.{Profiles}
use free_link_app.Routing.RuleJson.{
  put_entries, match_entries, option_entries, last_entries, fix_action, routes, outbound_entries,
  chosen_outbound, fixed_rule_json, get_rule_json, is_empty_rule,
}
use free_link_app.Routing.RuleJson.Entries.{
  has_key, put_entries-kept, has_key-kept, one_key, two_keys,
}

module _ (q : Qt) (p : Profiles) (r : RouteRule) where
  abbrev with_outbound : List (Bool × String × Json)
  with_outbound =
      match_entries q false r
      ++ (option_entries q r ++ ((true, "outbound", num r.outbound_id) ∷ last_entries r))

  abbrev without_outbound : List (Bool × String × Json)
  without_outbound = match_entries q false r ++ (option_entries q r ++ ([] ++ last_entries r))

  routed_keys :
      (has_key "action" (put_entries with_outbound end) ≡ true)
      × (has_key "outbound" (put_entries with_outbound end) ≡ true)
  unfolding match_entries option_entries last_entries
  routed_keys =
      let e = put_entries-kept with_outbound refl in
      (
        rw (e, has_key-kept "action" with_outbound) refl,
        rw (e, has_key-kept "outbound" with_outbound) refl,
      )

  unrouted_keys : has_key "action" (put_entries without_outbound end) ≡ true
  unfolding match_entries option_entries last_entries
  unrouted_keys =
      rw (put_entries-kept without_outbound refl, has_key-kept "action" without_outbound) refl

  unfolding_json : fixed_rule_json q p false "" r ≡ (
      if routes r.action then put_entries with_outbound end else put_entries without_outbound end)
  unfolding fixed_rule_json outbound_entries chosen_outbound
  unfolding_json = ground arith

  fixed_rule_json-keys :
      (1 ≤ count_keys (fixed_rule_json q p false "" r))
      × (routes r.action ≡ true → 2 ≤ count_keys (fixed_rule_json q p false "" r))
  fixed_rule_json-keys = (
    rw unfolding_json (
        if_rule (λ (o : Fields). 1 ≤ count_keys o) (routes r.action) _ _
          (one_key "action" _ routed_keys.0) (one_key "action" _ unrouted_keys)),
    λ h. rw (unfolding_json, h) (two_keys "action" "outbound" _ routed_keys.0 routed_keys.1 refl),
  )

-- A custom rule is never called empty, whatever it holds, unless its action (after a route to the
-- block or the DNS outbound became one) is "route-options" or "hijack-dns".
pub custom_rule_not_empty :
    (q : Qt) (p : Profiles) (r : RouteRule)
    → is_custom r.rule_type ≡ true
    → (fix_action r).action ≢ "route-options"
    → (fix_action r).action ≢ "hijack-dns"
    → (is_empty_rule q p r).1 ≡ false
unfolding is_empty_rule get_rule_json
custom_rule_not_empty q p r c a b = ground (
  arith,
  fixed_rule_json-keys q p (fix_action r),
  eq_iff (fix_action r).action "route-options",
  eq_iff (fix_action r).action "hijack-dns",
)
