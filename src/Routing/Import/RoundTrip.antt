-- ===== src/Routing/Import/RoundTrip.antt =====
-- What a rule is after `to_share_json` on one machine and `parse_rule_object` on another
-- (src/database/entities/RouteRule.cpp and RouteProfile.cpp).
use free_link_app.Common.{
  ℤ, String, String_eq, ℤ_eq, ◌≡◌, refl, sym, ◌∙◌, true, false, some, List, [], ◌∷◌, ◌++◌, arith,
  Bool-cases, inl, inr, ◌≢◌,
}
use free_link_app.Qt.{Qt}
use free_link_app.Json.{str, Fields, end, is_empty_object}
use free_link_app.Routing.RuleType.{invalid_id}
use free_link_app.Routing.Rule.{RouteRule, new_rule}
use free_link_app.Routing.Profiles.{Profiles}
use free_link_app.Routing.RuleJson.{
  Entry, put_entry, put_entries, match_entries, option_entries, last_entries, fix_action, routes,
  outbound_entries, chosen_outbound, view_outbound, fixed_rule_json, get_rule_json, to_share_json,
}
use free_link_app.Routing.RuleJson.Entries.{
  kept, offers, distinct, put_entries-kept, has_key-kept, not_empty_object,
}
use free_link_app.Routing.Import.{parse_rule_object, get_outbound_id}
use free_link_app.Routing.Import.Steps.{parse_entries-Run, parse_keys-kept}
use free_link_app.Routing.Import.Tidy.{IsTidy, fix_action-IsTidy}
use free_link_app.Routing.Import.Runs.{
  imported, Lands, rule_entries, label_entries, outbound_entry, routed-Run, unrouted-Run,
}

put_entries-append :
    (es fs : List Entry) (o : Fields) → put_entries (es ++ fs) o ≡ put_entries fs (put_entries es o)
unfolding put_entries
put_entries-append [] fs o = refl
put_entries-append (e ∷ es) fs o = put_entries-append es fs (put_entry e o)

known_rule_json :
    (q : Qt) (p : Profiles) (s : RouteRule) (out : List Entry)
    → outbound_entries p true "" s ≡ some out
    → fixed_rule_json q p true "" s ≡ put_entries (rule_entries q out s) end
unfolding fixed_rule_json
known_rule_json q p s out e = rw (e, fixed_rule_json)

-- The object that a rule is shared as, once its outbound is known.
shared_object :
    (q : Qt) (p : Profiles) (r : RouteRule) (out : List Entry)
    → outbound_entries p true "" (fix_action r) ≡ some out
    → distinct (rule_entries q out (fix_action r)) ≡ true
    → distinct (rule_entries q out (fix_action r) ++ label_entries (fix_action r)) ≡ true
    → offers "action" (rule_entries q out (fix_action r)) ≡ true
    → (to_share_json q p r).1
      ≡ kept (rule_entries q out (fix_action r) ++ label_entries (fix_action r))
unfolding to_share_json get_rule_json put_entries
shared_object q p r out e d d' a =
    let s = fix_action r in
    let es = rule_entries q out s in
    let built = known_rule_json q p s out e in
    let full =
      not_empty_object "action" (put_entries es end)
        (rw (put_entries-kept es d, has_key-kept "action" es) a) in
    rw (built, full)
      (sym (put_entries-append es (label_entries s) end)
        ∙ put_entries-kept (es ++ label_entries s) d')

routed_entries :
    (p : Profiles) (s : RouteRule) (n : String)
    → routes s.action ≡ true
    → view_outbound p s.outbound_id ≡ some (str n)
    → outbound_entries p true "" s ≡ some (outbound_entry n)
unfolding outbound_entries chosen_outbound
routed_entries p s n a v = ground arith

unrouted_entries :
    (p : Profiles) (s : RouteRule)
    → routes s.action ≡ false
    → outbound_entries p true "" s ≡ some []
unfolding outbound_entries
unrouted_entries p s a = ground arith

-- The keys of a shared rule differ, and its action is there.
routed_distinct :
    (q : Qt) (s : RouteRule) (n : String)
    → (distinct (rule_entries q (outbound_entry n) s) ≡ true)
      × (distinct (rule_entries q (outbound_entry n) s ++ label_entries s) ≡ true)
      × (offers "action" (rule_entries q (outbound_entry n) s) ≡ true)
unfolding match_entries option_entries last_entries
routed_distinct q s n = (refl, refl, refl)

unrouted_distinct :
    (q : Qt) (s : RouteRule)
    → (distinct (rule_entries q [] s) ≡ true)
      × (distinct (rule_entries q [] s ++ label_entries s) ≡ true)
      × (offers "action" (rule_entries q [] s) ≡ true)
unfolding match_entries option_entries last_entries
unrouted_distinct q s = (refl, refl, refl)

module _ (q : Qt) (p p' : Profiles) (r : RouteRule) (w : List String) (i : ℤ) where
  abbrev fixed : RouteRule
  fixed = fix_action r

  routed_share :
      (n : String)
      → IsTidy q r
      → routes fixed.action ≡ true
      → view_outbound p fixed.outbound_id ≡ some (str n)
      → get_outbound_id p' n ≡ i
      → i ≢ invalid_id
      → parse_rule_object q p' (to_share_json q p r).1 w ≡ some (imported i fixed, w)
  unfolding parse_rule_object
  routed_share n t a v h k =
      let known : outbound_entries p true "" fixed ≡ some (outbound_entry n) =
        routed_entries p fixed n a v in
      rw
        (shared_object q p r (outbound_entry n) known (routed_distinct q fixed n).0
          (routed_distinct q fixed n).1 (routed_distinct q fixed n).2)
        (parse_keys-kept q p' (rule_entries q (outbound_entry n) fixed ++ label_entries fixed)
            (new_rule, w)
          ∙ parse_entries-Run q p' (routed-Run q p' fixed w i n (fix_action-IsTidy q r t) a h k))

  unrouted_share :
      IsTidy q r
      → routes fixed.action ≡ false
      → parse_rule_object q p' (to_share_json q p r).1 w ≡ some (imported i fixed, w)
  unfolding parse_rule_object
  unrouted_share t a =
      rw
        (shared_object q p r [] (unrouted_entries p fixed a) (unrouted_distinct q fixed).0
          (unrouted_distinct q fixed).1 (unrouted_distinct q fixed).2)
        (parse_keys-kept q p' (rule_entries q [] fixed ++ label_entries fixed) (new_rule, w)
          ∙ parse_entries-Run q p' (unrouted-Run q p' fixed w i (fix_action-IsTidy q r t) a))

  -- The entries that a rule is shared with, apart from its labels.
  shared_some :
      (out : List Entry)
      → outbound_entries p true "" fixed ≡ some out
      → distinct (rule_entries q out fixed) ≡ true
      → offers "action" (rule_entries q out fixed) ≡ true
      → is_empty_object (get_rule_json q p true "" r).1 ≡ false
  unfolding get_rule_json
  shared_some out e d a = rw (known_rule_json q p fixed out e) (
      not_empty_object "action" (put_entries (rule_entries q out fixed) end) (
        rw
          (
            put_entries-kept (rule_entries q out fixed) d,
            has_key-kept "action" (rule_entries q out fixed),
          )
          a))

  -- A rule whose outbound has a name is shared as some object.
  pub get_rule_json-some :
      Lands p p' i fixed → is_empty_object (get_rule_json q p true "" r).1 ≡ false
  get_rule_json-some l = elim (Bool-cases (routes fixed.action)) [
    | inl a ↦
        let (n, v, h, k) = l a in
        shared_some (outbound_entry n) (routed_entries p fixed n a v) (routed_distinct q fixed n).0
          (routed_distinct q fixed n).2
    | inr a ↦
        shared_some [] (unrouted_entries p fixed a) (unrouted_distinct q fixed).0
          (unrouted_distinct q fixed).2
  ]

-- A tidy rule that is shared and read on a machine where its outbound lands as `i` comes over as
-- `imported i`: with its action fixed and its conditions, flags and options, but without its IP
-- version, its lists of source and destination ports, its override port and its reject method, and
-- with the options of no other action than its own. No warning is added.
pub parse_rule_object-to_share_json :
    (q : Qt) (p p' : Profiles) (r : RouteRule) (w : List String) (i : ℤ)
    → IsTidy q r
    → Lands p p' i (fix_action r)
    → parse_rule_object q p' (to_share_json q p r).1 w ≡ some (imported i (fix_action r), w)
parse_rule_object-to_share_json q p p' r w i t l =
    elim (Bool-cases (routes (fix_action r).action)) [
      | inl a ↦ let (n, v, h, k) = l a in routed_share q p p' r w i n t a v h k
      | inr a ↦ unrouted_share q p p' r w i t a
    ]
