-- ===== src/Routing/Share/Rules.antt =====
-- Rules that are shared and read back (src/database/entities/RouteProfile.cpp).
use free_link_app.Common.{
  ◌≡◌, refl, ap, ◌∙◌, ℕ, ℤ, String, String_eq, Bool, true, false, not, Option, none, some, List, [],
  ◌∷◌, map, ◌==◌, if◌then◌else◌, Bool-cases, inl, inr, All, keep, if_rule, ℤ_eq,
}
use free_link_app.Qt.{Qt}
use free_link_app.Json.{
  Json, str, obj, Items, cons, Fields, end, field, set_key, get_key, is_empty_object, to_items,
  text_at, to_text, get_key-set_key,
}
use free_link_app.Routing.RuleType.{
  RuleType, rule_type_to_token, token_to_rule_type-rule_type_to_token, dns_id, block_id,
}
use free_link_app.Routing.Rule.{RouteRule}
use free_link_app.Routing.Profiles.{Profiles}
use free_link_app.Routing.RuleJson.{fix_action, get_rule_json, to_share_json}
use free_link_app.Routing.Import.{parse_rule_object}
use free_link_app.Routing.Import.Tidy.{IsTidy}
use free_link_app.Routing.Import.Runs.{Lands, imported}
use free_link_app.Routing.Import.RoundTrip.{get_rule_json-some, parse_rule_object-to_share_json}
use free_link_app.Routing.Generate.{skips}
use free_link_app.Routing.Share.{share_rules, read_rules, add_rule}

-- The text of a value that may be missing, as `text_at` reads it.
abbrev as_text : Option Json → String
as_text o = elim o [ none ↦ "" | some v ↦ to_text v ]

text_if :
    (c : Bool) (s : String) (o : Option Json)
    → as_text (if c then some (str s) else o) ≡ (if c then s else as_text o)
text_if true s o = refl
text_if false s o = refl

text_at-set_key :
    (j k s : String) (o : Fields)
    → text_at j (set_key k (str s) o) ≡ (if k == j then s else text_at j o)
text_at-set_key j k s o =
    ap as_text (get_key-set_key j k (str s) o) ∙ text_if (k == j) s (get_key j o)

set_key-some : (k : String) (v : Json) (o : Fields) → is_empty_object (set_key k v o) ≡ false
unfolding set_key
set_key-some k v end = refl
set_key-some k v (field j w o) = if_rule (λ o. is_empty_object o ≡ false) (j == k) _ _ refl refl

-- What an action's fixing leaves alone.
fix_action-labels :
    (r : RouteRule) → ((fix_action r).name ≡ r.name) × ((fix_action r).rule_type ≡ r.rule_type)
unfolding fix_action
fix_action-labels r =
    let Same = λ (s : RouteRule). (s.name ≡ r.name) × (s.rule_type ≡ r.rule_type) in
    if_rule Same (r.action == "route") _ r
      (if_rule Same (r.outbound_id == dns_id) (record r { action = "hijack-dns" }) _ (refl, refl)
        (if_rule Same (r.outbound_id == block_id) (record r { action = "reject" }) r (refl, refl)
          (refl, refl)))
      (refl, refl)

-- What a shared rule says about its name and kind.
module _ (q : Qt) (p : Profiles) (r : RouteRule)
    (h : is_empty_object (get_rule_json q p true "" r).1 ≡ false) where
  to_share_json-object :
      (to_share_json q p r).1
      ≡ set_key "type"
          (str (rule_type_to_token (fix_action r).rule_type))
          (set_key "name" (str (fix_action r).name) (get_rule_json q p true "" r).1)
  unfolding to_share_json get_rule_json
  to_share_json-object = rw h refl

  to_share_json-name : text_at "name" (to_share_json q p r).1 ≡ r.name
  to_share_json-name = rw to_share_json-object (
      text_at-set_key "name" "type" _ _
      ∙ (text_at-set_key "name" "name" _ _ ∙ (fix_action-labels r).0))

  to_share_json-type : text_at "type" (to_share_json q p r).1 ≡ rule_type_to_token r.rule_type
  to_share_json-type =
      rw to_share_json-object
        (text_at-set_key "type" "type" _ _ ∙ ap rule_type_to_token (fix_action-labels r).1)

  to_share_json-some : is_empty_object (to_share_json q p r).1 ≡ false
  to_share_json-some = rw to_share_json-object (set_key-some "type" _ _)

-- A rule with a name whose lists are tidy and whose outbound is `land` of it on the other machine.
pub record Shareable (q : Qt) (p p' : Profiles) (land : ℤ → ℤ) (r : RouteRule) : Type 0 where
  pub tidy : IsTidy q r
  pub lands : Lands p p' (land r.outbound_id) (fix_action r)
  pub named : (r.name == "") ≡ false

-- The rule that the other machine has then.
abbrev pub came_over : (ℤ → ℤ) → RouteRule → RouteRule
came_over land r = record (imported (land r.outbound_id) (fix_action r)) {
  name = r.name;
  rule_type = r.rule_type;
}

read_one :
    (q : Qt) (p : Profiles) (o : Fields) (vs : Items) (n : ℕ) (w w' : List String) (r : RouteRule)
    (nm : String) (t : RuleType)
    → parse_rule_object q p o w ≡ some (r, w')
    → text_at "name" o ≡ nm
    → (nm == "") ≡ false
    → text_at "type" o ≡ rule_type_to_token t
    → read_rules q p (cons (obj o) vs) n w
      ≡ add_rule q p (record r { rule_type = t; name = nm }) (read_rules q p vs n w')
unfolding read_rules
read_one q p o vs n w w' r nm t h e k f =
    rw (h, read_rules) (rw (e, k, f, token_to_rule_type-rule_type_to_token t) refl)

-- Rules that are shared are read back as they came over, in order, without a warning; those that the
-- sharing skips are left out.
pub read_rules-share_rules :
    (q : Qt) (p p' : Profiles) (land : ℤ → ℤ) (rs : List RouteRule) (n : ℕ) (w : List String)
    → All (λ r. skips q p r ≡ false → Shareable q p p' land r) rs
    → read_rules q p' (to_items (map obj (share_rules q p rs).1)) n w
      ≡ some (map (came_over land) (keep (λ r. not (skips q p r)) rs), w)
unfolding share_rules read_rules
read_rules-share_rules q p p' land [] n w h = refl
read_rules-share_rules q p p' land (r ∷ rs) n w h = elim (Bool-cases (skips q p r)) [
  | inl e ↦ rw (e, share_rules) (read_rules-share_rules q p p' land rs n w h.1)
  | inr e ↦
      let s = h.0 e in
      let known = get_rule_json-some q p p' r w (land r.outbound_id) s.lands in
      rw (e, to_share_json-some q p r known, share_rules)
        (read_one q p' (to_share_json q p r).1 (to_items (map obj (share_rules q p rs).1)) n w w
            (imported (land r.outbound_id) (fix_action r)) r.name r.rule_type
            (parse_rule_object-to_share_json q p p' r w (land r.outbound_id) s.tidy s.lands)
            (to_share_json-name q p r known) s.named (to_share_json-type q p r known)
          ∙ ap (add_rule q p' (came_over land r)) (read_rules-share_rules q p p' land rs n w h.1))
]
