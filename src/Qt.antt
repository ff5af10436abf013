-- ===== src/Qt.antt =====
-- What the program takes from Qt beyond its containers: the text functions that the routing code
-- calls. They are parameters; the laws are those of the documentation of QString and QUrl.
use free_link_app.Common.{ℤ, pos, String, ◌≡◌, refl, Option, none, Bool, false}

pub record Qt : Type 0 where
  -- QString::trimmed
  pub trimmed : String → String
  pub trimmed_idem : (s : String) → trimmed (trimmed s) ≡ trimmed s
  pub trimmed_empty : trimmed "" ≡ ""
  -- QString::toInt, 0 where the text is no number
  pub to_int : String → ℤ
  -- QString::number
  pub number : ℤ → String
  -- QUrl(s).fileName(), for a valid URL
  pub url_file_name : String → Option String
  -- QString::number(qHash(url.toEncoded()))
  pub url_hash : String → String
  -- QString::contains and QString::replace
  pub text_contains : String → String → Bool
  pub replace : String → String → String → String

-- A small Qt for the tests: no text of theirs has blanks, numbers or URLs.
abbrev pub plain : Qt
plain = record {
  trimmed = λ s. s;
  trimmed_idem = λ s. refl;
  trimmed_empty = refl;
  to_int = λ s. pos 0;
  number = λ n. "0";
  url_file_name = λ s. none;
  url_hash = λ s. s;
  text_contains = λ s t. false;
  replace = λ s a b. s;
}
