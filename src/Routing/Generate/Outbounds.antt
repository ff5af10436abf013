-- ===== src/Routing/Generate/Outbounds.antt =====
-- The outbounds that a routing section is generated with (src/database/entities/RouteProfile.cpp).
use free_link_app.Common.{
  ◌≡◌, refl, ap, ◌∙◌, ℤ, ℤ_eq, String, String_eq, Bool, true, false, Option, none, some, List, [],
  ◌∷◌, ◌++◌, map, arith, is_none, Bool-cases, inl, inr, contains, beq_refl,
}
use free_link_app.Qt.{Qt}
use free_link_app.Json.{Json, Fields, end, is_empty_object}
use free_link_app.Routing.Rule.{RouteRule}
use free_link_app.Routing.Profile.{RouteProfile}
use free_link_app.Routing.Profiles.{Profiles}
use free_link_app.Routing.RuleJson.{
  Entry, put_entries, match_entries, option_entries, last_entries, get_rule_json, fixed_rule_json,
  fix_action, outbound_entries, chosen_outbound, routes,
}
use free_link_app.Routing.RuleJson.Entries.{
  offers, distinct, put_entries-kept, has_key-kept, not_empty_object,
}
use free_link_app.Routing.Generate.{
  outbound_tag, Generated, skips, rule_json, adds_adblock, put_rule, route_rules_from,
  get_route_rules, get_used_outbounds,
}

-- The JSON that the generator builds is never the empty object that stands for a failure.
module _ (q : Qt) (p : Profiles) (tag : String) (r : RouteRule) where
  abbrev entries_with : List Entry → List Entry
  entries_with out = match_entries q false r ++ (option_entries q r ++ (out ++ last_entries r))

  some_object :
      (out : List Entry)
      → distinct (entries_with out) ≡ true
      → offers "action" (entries_with out) ≡ true
      → is_empty_object (put_entries (entries_with out) end) ≡ false
  some_object out d a =
      not_empty_object "action" (put_entries (entries_with out) end)
        (rw (put_entries-kept (entries_with out) d, has_key-kept "action" (entries_with out)) a)

  routed_object :
      (v : Json)
      → is_empty_object (put_entries (entries_with ((true, "outbound", v) ∷ [])) end) ≡ false
  unfolding match_entries option_entries last_entries
  routed_object v = some_object ((true, "outbound", v) ∷ []) refl refl

  unrouted_object : is_empty_object (put_entries (entries_with []) end) ≡ false
  unfolding match_entries option_entries last_entries
  unrouted_object = some_object [] refl refl

  fixed_rule_json-some : is_empty_object (fixed_rule_json q p false tag r) ≡ false
  unfolding fixed_rule_json outbound_entries chosen_outbound
  fixed_rule_json-some = elim (Bool-cases (routes r.action)) [
    | inl h ↦ rw (h, fixed_rule_json, outbound_entries) (routed_object _)
    | inr h ↦ rw (h, fixed_rule_json, outbound_entries) unrouted_object
  ]

module _ (q : Qt) (p : Profiles) (tags : ℤ → Option String) (adblock_enable : Bool) where
  rule_json-some : (r : RouteRule) → is_empty_object (rule_json q p false tags r).1 ≡ false
  unfolding get_rule_json
  rule_json-some r = fixed_rule_json-some q p (outbound_tag tags r.outbound_id) (fix_action r)

  put_rule-some :
      (r s : RouteRule) (json : Fields) (skip ads : Bool) (rs : List RouteRule) (g : Generated)
      → is_empty_object json ≡ false
      → is_none g.1 ≡ false
      → is_none (put_rule r s json skip ads rs g).1 ≡ false
  unfolding put_rule
  put_rule-some r s json true ads rs g h k = k
  put_rule-some r s json false ads rs (l, none) h k = cc
  put_rule-some r s json false ads rs (l, some js) h k = rw h refl

  -- The generator's section (not the viewer's) is never aborted, whatever tags the outbounds have.
  pub route_rules_from-some :
      (rules : List RouteRule) (added : Bool)
      → is_none (route_rules_from q p false tags adblock_enable rules added).1 ≡ false
  unfolding route_rules_from
  route_rules_from-some [] added = refl
  route_rules_from-some (r ∷ rs) added =
      put_rule-some r _ _ _ _ rs _ (rule_json-some r) (route_rules_from-some rs _)

module _ (q : Qt) (p : Profiles) (for_view adblock_enable : Bool)
    (tags more : ℤ → Option String) where
  rule_json-cong :
      (r : RouteRule)
      → tags r.outbound_id ≡ more r.outbound_id
      → rule_json q p for_view tags r ≡ rule_json q p for_view more r
  rule_json-cong r h = ap (λ o. get_rule_json q p for_view (elim o [ none ↦ "" | some t ↦ t ]) r) h

  route_rules_from-cong :
      (rules : List RouteRule) (added : Bool)
      → ((id : ℤ)
          → contains (map (λ (r : RouteRule). r.outbound_id) rules) id ≡ true
          → tags id ≡ more id)
      → route_rules_from q p for_view tags adblock_enable rules added
        ≡ route_rules_from q p for_view more adblock_enable rules added
  unfolding route_rules_from
  route_rules_from-cong [] added h = refl
  route_rules_from-cong (r ∷ rs) added h =
      let rest = λ (b : Bool). route_rules_from-cong rs b (λ id c. h id (ground (arith, c))) in
      let same = rule_json-cong r (h r.outbound_id (rw (beq_refl r.outbound_id) refl)) in
      rw same (
        ap
          (put_rule r (rule_json q p for_view more r).0 (rule_json q p for_view more r).1
            (skips q p r) (adds_adblock adblock_enable added (rule_json q p for_view more r).1) rs)
          (rest _))

-- The routing section depends on the tags of the used outbounds alone: two maps of tags that agree on
-- the ids which a profile of structured rules says it uses give the same section.
pub get_route_rules-cong :
    (q : Qt) (p : Profiles) (for_view adblock_enable : Bool) (tags more : ℤ → Option String)
    (route_of : String → Fields) (c : RouteProfile)
    → c.is_raw ≡ false
    → ((id : ℤ) → contains (get_used_outbounds route_of c) id ≡ true → tags id ≡ more id)
    → get_route_rules q p for_view tags adblock_enable c.rules
      ≡ get_route_rules q p for_view more adblock_enable c.rules
unfolding get_route_rules get_used_outbounds
get_route_rules-cong q p for_view adblock_enable tags more route_of c e h =
    let used : get_used_outbounds route_of c ≡ map (λ (r : RouteRule). r.outbound_id) c.rules =
      rw e refl in
    rw
      (route_rules_from-cong q p for_view adblock_enable tags more c.rules false
        (λ id k. h id (ap (λ l. contains l id) used ∙ k)))
      refl
