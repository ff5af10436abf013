-- ===== src/Subscription/Raw/Schemes.antt =====
-- A link is read by the parser of its scheme (src/configs/sub/GroupUpdater.cpp, RawUpdater::update).
use free_link_app.Common.{
  ℕ, ◌+◌, ◌≡◌, refl, String, String_eq, ◌&&◌, Option, none, some, List, [], ◌∷◌, ◌==◌,
  if◌then◌else◌, All, arith, Option-cases, Bool-cases, inl, inr,
}
use free_link_app.Text.{glue, starts_with}
use free_link_app.Subscription.Raw.{Parsers, schemes, starts_with_any, of_option, read_schemes}

-- How many schemes a link has.
abbrev matches : List (List String × String) → String → ℕ
matches [] s = 0
matches ((prefixes, profile) ∷ rows) s =
    (if starts_with_any s prefixes then 1 else 0) + matches rows s

-- The type of profile for the scheme of a link.
abbrev type_of : List (List String × String) → String → Option String
type_of [] s = none
type_of ((prefixes, profile) ∷ rows) s =
    let rest = type_of rows s in if starts_with_any s prefixes then some profile else rest

-- The prefixes of links, each with the type of profile that a link with it stands for.
abbrev pub link_types : List (String × String)
link_types =
    ("socks5://", "socks")
    ∷ ("socks4://", "socks")
    ∷ ("socks4a://", "socks")
    ∷ ("socks://", "socks")
    ∷ ("http://", "http")
    ∷ ("https://", "http")
    ∷ ("ss://", "shadowsocks")
    ∷ ("vmess://", "vmess")
    ∷ ("vless://", "vless")
    ∷ ("trojan://", "trojan")
    ∷ ("anytls://", "anytls")
    ∷ ("mierus://", "mieru")
    ∷ ("mieru://", "mieru")
    ∷ ("hysteria://", "hysteria")
    ∷ ("hysteria2://", "hysteria")
    ∷ ("hy2://", "hysteria")
    ∷ ("tuic://", "tuic")
    ∷ ("juicity://", "juicity")
    ∷ ("tt://", "trusttunnel")
    ∷ ("shadowtls://", "shadowtls")
    ∷ ("wg://", "wireguard")
    ∷ ("ssh://", "ssh")
    ∷ ("naive+https://", "naive")
    ∷ ("naive+quic://", "naive")
    ∷ []

module _ {A : Type 0} (p : Parsers A) where
  -- The parser for a type of profile and a link.
  abbrev pub reader : String → String → Option A
  reader profile s =
      p.from_link (if profile == "vless" && p.use_xray_vless s then "xrayvless" else profile) s

  unmatched_rows :
      (rows : List (List String × String)) (s : String) (ent : Option A)
      → matches rows s ≡ 0
      → read_schemes p rows s ent ≡ of_option ent
  unfolding read_schemes
  unmatched_rows [] s ent h = refl
  unmatched_rows ((prefixes, profile) ∷ rows) s ent h =
      elim (Bool-cases (starts_with_any s prefixes)) [
        | inl has ↦ absurd (ground arith)
        | inr lacks ↦ rw lacks (unmatched_rows rows s ent (ground arith))
      ]

  abbrev read_as : Option String → String → List A
  read_as none s = []
  read_as (some profile) s = of_option (reader profile s)

  one_scheme :
      (rows : List (List String × String)) (s : String)
      → matches rows s ≡ 1
      → read_schemes p rows s none ≡ read_as (type_of rows s) s
  unfolding read_schemes
  one_scheme [] s h = absurd (omega arith)
  one_scheme ((prefixes, profile) ∷ rows) s h = elim (Bool-cases (starts_with_any s prefixes)) [
    | inl has ↦ elim (Option-cases (reader profile s)) [
      | inl refused ↦ rw (has, refused) refl
      | inr (a, read) ↦ rw (has, read) (unmatched_rows rows s (some a) (ground arith))
    ]
    | inr lacks ↦ rw lacks (one_scheme rows s (ground arith))
  ]

  -- A link with a prefix of the table of link types, whatever follows the prefix, becomes what the
  -- parser for the type that the table has for the prefix makes of it (a VLESS link that Xray is to
  -- carry: the parser for xrayvless), and nothing where that parser refuses it: no other is asked.
  pub read_schemes-link_types :
      (rest : String)
      → All
          (λ (row : String × String).
            read_schemes p schemes (glue row.0 rest) none
            ≡ of_option (reader row.1 (glue row.0 rest)))
          link_types
  unfolding glue starts_with
  read_schemes-link_types rest = (
    one_scheme schemes (glue "socks5://" rest) refl,
    (
      one_scheme schemes (glue "socks4://" rest) refl,
      (
        one_scheme schemes (glue "socks4a://" rest) refl,
        (
          one_scheme schemes (glue "socks://" rest) refl,
          (
            one_scheme schemes (glue "http://" rest) refl,
            (
              one_scheme schemes (glue "https://" rest) refl,
              (
                one_scheme schemes (glue "ss://" rest) refl,
                (
                  one_scheme schemes (glue "vmess://" rest) refl,
                  (
                    one_scheme schemes (glue "vless://" rest) refl,
                    (
                      one_scheme schemes (glue "trojan://" rest) refl,
                      (
                        one_scheme schemes (glue "anytls://" rest) refl,
                        (
                          one_scheme schemes (glue "mierus://" rest) refl,
                          (
                            one_scheme schemes (glue "mieru://" rest) refl,
                            (
                              one_scheme schemes (glue "hysteria://" rest) refl,
                              (
                                one_scheme schemes (glue "hysteria2://" rest) refl,
                                (
                                  one_scheme schemes (glue "hy2://" rest) refl,
                                  (
                                    one_scheme schemes (glue "tuic://" rest) refl,
                                    (
                                      one_scheme schemes (glue "juicity://" rest) refl,
                                      (
                                        one_scheme schemes (glue "tt://" rest) refl,
                                        (
                                          one_scheme schemes (glue "shadowtls://" rest) refl,
                                          (
                                            one_scheme schemes (glue "wg://" rest) refl,
                                            (
                                              one_scheme schemes (glue "ssh://" rest) refl,
                                              (
                                                one_scheme schemes (glue "naive+https://" rest)
                                                    refl,
                                                (
                                                  one_scheme schemes (glue "naive+quic://" rest)
                                                      refl,
                                                  tt,
                                                ),
                                              ),
                                            ),
                                          ),
                                        ),
                                      ),
                                    ),
                                  ),
                                ),
                              ),
                            ),
                          ),
                        ),
                      ),
                    ),
                  ),
                ),
              ),
            ),
          ),
        ),
      ),
    ),
  )
