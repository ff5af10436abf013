-- ===== src/Subscription/Examples.antt =====
-- Subscriptions on small inputs (src/configs/sub/GroupUpdater.cpp, src/database/entities/Profile.cpp).
use free_link_app.Common.{
  ℕ, ◌<◌, ℤ_eq, pos, ℕ_eq, String, String_eq, ◌≡◌, refl, true, false, none, some, [], ◌∷◌, ◌==◌,
  if◌then◌else◌, nat_eq, All, arith, contains, Bool-cases, inl, inr,
}
use free_link_app.Text.{starts_with, glue}
use free_link_app.Json.{end}
use free_link_app.Subscription.Filter.{uniq}
use free_link_app.Subscription.Filter.Uniq.{uniq_lem}
use free_link_app.Subscription.Merge.{merge}
use free_link_app.Subscription.Merge.Order.{profiles-merge, merge-keeps}
use free_link_app.Subscription.Disect.{disect, json_end, line}
use free_link_app.Subscription.Disect.Pieces.{size}
use free_link_app.Subscription.Raw.{Parsers, update, schemes, read_schemes, read_line}
use free_link_app.Subscription.Raw.Ends.{Shrinks, Returns, update-Returns}
use free_link_app.Subscription.Raw.Schemes.{link_types, read_schemes-link_types}

-- Profiles 1 and 3 have one link, and so have 2 and 4.
abbrev link : ℕ → String
link n = if nat_eq n 1 then "a" else if nat_eq n 3 then "a" else "b"

uniq_lem_example : uniq link true (1 ∷ 2 ∷ 3 ∷ []) ≡ 2 ∷ 3 ∷ []
uniq_lem_example = uniq_lem link true (1 ∷ 2 ∷ 3 ∷ [])

-- The group has 1 and 2; the texts give 4 and 5, of which 4 has the link of 2.
profiles-merge_example :
    (merge link pos (1 ∷ []) (1 ∷ 3 ∷ 4 ∷ []) (4 ∷ 3 ∷ [])).profiles ≡ pos 4 ∷ pos 1 ∷ []
profiles-merge_example =
    profiles-merge link pos (1 ∷ []) (1 ∷ 3 ∷ 4 ∷ []) (4 ∷ 3 ∷ [])
      ((refl, refl), ((refl, refl), tt))

merge-keeps_example :
    let after = merge link pos (1 ∷ []) (1 ∷ 3 ∷ 4 ∷ []) (4 ∷ 3 ∷ []) in
    (contains after.profiles (pos 1) ≡ true) × (contains after.del_ids (pos 1) ≡ false)
merge-keeps_example =
    merge-keeps link pos (1 ∷ []) (1 ∷ 3 ∷ 4 ∷ []) (4 ∷ 3 ∷ []) 3 ((refl, refl), ((refl, refl), tt))
      refl

-- A link that the remote lists twice puts the profile that the group has for it there twice.
listed_twice : (merge link pos (2 ∷ []) (2 ∷ 4 ∷ 6 ∷ []) (4 ∷ 6 ∷ [])).profiles ≡ pos 2 ∷ pos 2 ∷ []
listed_twice =
    profiles-merge link pos (2 ∷ []) (2 ∷ 4 ∷ 6 ∷ []) (4 ∷ 6 ∷ [])
      ((refl, refl), ((refl, refl), tt))

disect_runs : disect 30 "a\n\n{\"b\":{\n}}c\nd" ≡ some ("a" ∷ "{\"b\":{\n}}" ∷ "c" ∷ "d" ∷ [])
unfolding disect json_end line
disect_runs = refl

-- Parsers that take every link for its type, and a text that is base64 for two links.
abbrev encoded : String
encoded = "dHQ6Ly9hCndnOi8vYg=="

abbrev toy : Parsers String
toy = record {
  decode_b64 = λ s. if s == encoded then "tt://a\nwg://b" else "";
  parse_json = λ s. none;
  print_compact = λ o. "";
  trimmed = λ s. s;
  text_contains = λ s t. false;
  from_link = λ type s. some type;
  from_json = λ type o. none;
  from_sip008 = λ o. none;
  from_json_link = λ type o. none;
  custom = λ k s n. s;
  from_clash = λ s. [];
  use_xray_vless = λ s. false;
  fragment_object = λ s. end;
}

toy_decoded : (s : String) → (toy.decode_b64 s == "") ≡ false → size (toy.decode_b64 s) < size s
toy_decoded s h = elim (Bool-cases (s == encoded)) [
  | inl e ↦ rw ((String_eq.beq_iff s encoded).0 e) (omega arith)
  | inr e ↦ let clash : true ≡ false = rw e at h in cc
]

toy-Shrinks : Shrinks toy
toy-Shrinks = record { decoded = toy_decoded; trims = λ s. omega arith }

update_runs : update toy 42 encoded true false ≡ some ("trusttunnel" ∷ "wireguard" ∷ [])
unfolding update disect json_end line starts_with read_line read_schemes
update_runs = refl

update-Returns_example : Returns (update toy 42 encoded true false)
update-Returns_example = update-Returns toy toy-Shrinks 42 encoded true false (omega arith)

read_schemes-link_types_example :
    All
      (λ (row : String × String). read_schemes toy schemes (glue row.0 "x") none ≡ row.1 ∷ [])
      link_types
read_schemes-link_types_example = read_schemes-link_types toy "x"
