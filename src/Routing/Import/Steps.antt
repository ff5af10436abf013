-- ===== src/Routing/Import/Steps.antt =====
-- How `parse_rule_object` of src/database/entities/RouteProfile.cpp reads back the entries that
-- `get_rule_json` of RouteRule.cpp writes.
use free_link_app.Common.{
  ℤ, String, String_eq, ℤ_eq, ◌≡◌, refl, ap, sym, ◌∙◌, Bool, true, false, not, ◌&&◌, ◌||◌, Option,
  some, List, [], ◌∷◌, ◌++◌, map, ◌==◌, if◌then◌else◌, arith, Bool-cases, inl, inr,
}
use text.Mathlib.TextEquality.{eq_iff}
use mathlib.Core.Path.{fun_ext}
use free_link_app.Qt.{Qt}
use free_link_app.Json.{Json, bool, num, str, to_items, of_items, to_text}
use free_link_app.Routing.Rule.{RouteRule}
use free_link_app.Routing.Rule.Values.{is_valid_str_array, filter_empty, set_field_value}
use free_link_app.Routing.Profiles.{Profiles}
use free_link_app.Routing.RuleJson.{
  Entry, texts_entry, numbers_entry, text_entry, text_array, number_array,
}
use free_link_app.Routing.RuleJson.Entries.{kept}
use free_link_app.Routing.Import.{Draft, set_from_json, parse_key, parse_keys, then_parse}

abbrev pub is_plain_key : String → Bool
is_plain_key k = not (k == "name" || k == "type") && not (k == "outbound")

texts_back : (v : List String) → map to_text (of_items (to_items (map str v))) ≡ v
texts_back [] = refl
texts_back (s ∷ v) = ap (λ t. s ∷ t) (texts_back v)

module _ (q : Qt) (p : Profiles) where
  abbrev pub parse_entry : Entry → Draft → Option Draft
  parse_entry (c, k, v) d = if c then parse_key q p k v d else some d

  abbrev pub parse_entries : List Entry → Draft → Option Draft
  parse_entries [] d = some d
  parse_entries (e ∷ es) d = then_parse (parse_entry e d) (parse_entries es)

  pub parse_keys-kept :
      (es : List Entry) (d : Draft) → parse_keys q p (kept es) d ≡ parse_entries es d
  unfolding parse_keys
  parse_keys-kept [] d = refl
  parse_keys-kept ((true, k, v) ∷ es) d =
      ap (then_parse (parse_key q p k v d)) (fun_ext (parse_keys-kept es))
  parse_keys-kept ((false, k, v) ∷ es) d = parse_keys-kept es d

  -- A run through the entries, one round after another.
  pub data Run : List Entry → Draft → Draft → Type 0 where
    done : {d : Draft} → Run [] d d
    next :
        {e : Entry} {es : List Entry} {d d' d'' : Draft}
        → parse_entry e d ≡ some d'
        → Run es d' d''
        → Run (e ∷ es) d d''

  pub parse_entries-Run :
      {es : List Entry} {d d' : Draft} → Run es d d' → parse_entries es d ≡ some d'
  parse_entries-Run done = refl
  parse_entries-Run (next {es = es} h g) =
      ap (λ m. then_parse m (parse_entries es)) h ∙ parse_entries-Run g

  plain_key :
      (k : String) (v : Json) (d : Draft)
      → is_plain_key k ≡ true
      → parse_key q p k v d ≡ set_from_json q p k v d
  unfolding parse_key
  plain_key k v d h = ground arith

  invalid-filter_empty : (v : List String) → is_valid_str_array q v ≡ false → filter_empty q v ≡ []
  unfolding is_valid_str_array filter_empty
  invalid-filter_empty [] h = refl
  invalid-filter_empty (s ∷ v) h = ground (arith, invalid-filter_empty v)

  blanks-filter_empty :
      (v : List String)
      → filter_empty q (map to_text (of_items (to_items (map (λ s. num (q.to_int s)) v)))) ≡ []
  unfolding filter_empty
  blanks-filter_empty [] = refl
  blanks-filter_empty (s ∷ v) = rw q.trimmed_empty (blanks-filter_empty v)

  module _ (k : String) (r : RouteRule) (w : List String) (plain : is_plain_key k ≡ true) where
    pub list_step :
        (upd : List String → RouteRule → RouteRule) (v : List String)
        → ((u : List String) → set_field_value q k u r ≡ some (upd (filter_empty q u) r))
        → upd [] r ≡ r
        → filter_empty q v ≡ v
        → parse_entry (texts_entry q k v) (r, w) ≡ some (upd v r, w)
    unfolding set_from_json
    list_step upd v writes unset tidy = elim (Bool-cases (is_valid_str_array q v)) [
      | inl e ↦
          rw (
            e,
            plain_key k (text_array q v) (r, w) plain,
            set_from_json,
            writes,
            texts_back v,
            tidy,
          )
      | inr e ↦
          let none_set : v ≡ [] = sym tidy ∙ invalid-filter_empty v e in
          rw e (ap (λ u. some (u, w)) (sym unset ∙ ap (λ u. upd u r) (sym none_set)))
    ]

    -- Numbers are not read back: the texts of a port list come back blank.
    pub numbers_step :
        (upd : List String → RouteRule → RouteRule) (v : List String)
        → ((u : List String) → set_field_value q k u r ≡ some (upd (filter_empty q u) r))
        → upd [] r ≡ r
        → parse_entry (numbers_entry q k v) (r, w) ≡ some (r, w)
    unfolding set_from_json
    numbers_step upd v writes unset = elim (Bool-cases (is_valid_str_array q v)) [
      | inl e ↦ rw (
        e,
        plain_key k (number_array q v) (r, w) plain,
        set_from_json,
        writes,
        blanks-filter_empty v,
        unset,
      )
      | inr e ↦ rw e
    ]

    pub number_step : (c : Bool) (n : ℤ) → parse_entry (c, k, num n) (r, w) ≡ some (r, w)
    unfolding set_from_json
    number_step true n = plain_key k (num n) (r, w) plain
    number_step false n = refl

    pub text_step :
        (upd : String → RouteRule → RouteRule) (s : String) (c : Bool)
        → set_field_value q k (s ∷ []) r ≡ some (upd s r)
        → (c ≡ false → upd s r ≡ r)
        → parse_entry (c, k, str s) (r, w) ≡ some (upd s r, w)
    unfolding set_from_json
    text_step upd s true writes unset = rw (plain_key k (str s) (r, w) plain, set_from_json, writes)
    text_step upd s false writes unset = ap (λ u. some (u, w)) (sym (unset refl))

    -- A key that names no attribute is passed over.
    pub unknown_step :
        (s : String) (c : Bool)
        → set_field_value q k (s ∷ []) r ≡ some r
        → parse_entry (c, k, str s) (r, w) ≡ some (r, w)
    unfolding set_from_json
    unknown_step s true writes = rw (plain_key k (str s) (r, w) plain, set_from_json, writes)
    unknown_step s false writes = refl

    pub flag_step :
        (upd : Bool → RouteRule → RouteRule) (c b : Bool)
        → set_field_value q k ("true" ∷ []) r ≡ some (upd true r)
        → (c ≡ true → b ≡ true)
        → upd false r ≡ r
        → parse_entry (c, k, bool b) (r, w) ≡ some (upd c r, w)
    unfolding set_from_json
    flag_step upd true b writes on unset =
        rw (on refl, plain_key k (bool true) (r, w) plain, set_from_json, writes)
    flag_step upd false b writes on unset = ap (λ u. some (u, w)) (sym unset)

    pub plain_text_step :
        (upd : String → RouteRule → RouteRule) (s : String)
        → set_field_value q k (s ∷ []) r ≡ some (upd s r)
        → upd "" r ≡ r
        → parse_entry (text_entry q k s) (r, w) ≡ some (upd s r, w)
    plain_text_step upd s writes unset =
        text_step upd s (not (s == "")) writes
          (λ e. let blank : s ≡ "" = (eq_iff s "").0 (ground arith) in rw blank unset)

    pub option_text_step :
        (upd : String → RouteRule → RouteRule) (s : String) (c : Bool)
        → set_field_value q k (s ∷ []) r ≡ some (upd s r)
        → upd "" r ≡ r
        → parse_entry (c && not (s == ""), k, str s) (r, w) ≡ some (upd (if c then s else "") r, w)
    option_text_step upd s true writes unset = plain_text_step upd s writes unset
    option_text_step upd s false writes unset = ap (λ u. some (u, w)) (sym unset)

module _ (q : Qt) (p : Profiles) where
  pub Run-append :
      {es fs : List Entry} {d d' d'' : Draft}
      → Run q p es d d'
      → Run q p fs d' d''
      → Run q p (es ++ fs) d d''
  Run-append done g = g
  Run-append (next h r) g = next h (Run-append r g)
