-- ===== src/Routing/Profiles.antt =====
-- What the routing code asks of the profiles repository (src/database/ProfilesRepo.cpp).
use free_link_app.Common.{ℤ, pos, String, String_eq, ℤ_eq, Option, none, some, ◌==◌, if◌then◌else◌}

pub record Profiles : Type 0 where
  -- GetProfile(id)->outbound->DisplayName(), if there is such a profile
  pub display_name : ℤ → Option String
  -- GetProfile(id)->name, if there is such a profile
  pub profile_name : ℤ → Option String
  -- GetProfileByName(name)->id
  pub id_of_name : String → Option ℤ

-- One profile for the tests: number 5, "home".
abbrev pub one_profile : Profiles
one_profile = record {
  display_name = λ id. if id == pos 5 then some "home" else none;
  profile_name = λ id. if id == pos 5 then some "home" else none;
  id_of_name = λ name. if name == "home" then some (pos 5) else none;
}
