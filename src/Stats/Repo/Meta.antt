-- ===== src/Stats/Repo/Meta.antt =====
-- The metadata tables of src/database/TrafficStatsRepo.cpp.
use free_link_app.Common.{
  ℕ, ℤ, ℤ_eq, String_eq, String, ◌≡◌, refl, false, Option, none, some, List, [], ◌∷◌, arith, ◌==◌,
  if◌then◌else◌, int_eq_iff,
}
use text.Mathlib.TextEquality.{eq_iff}
use free_link_app.Stats.Repo.{
  Repo, ConfigMetaRow, AppMetaRow, put_config_meta, put_app_meta, upsert_config_meta,
  upsert_app_meta,
}

-- What GetAllConfigMeta and GetAllAppMeta hold for one key.
abbrev pub config_meta_of : ℤ → List ConfigMetaRow → Option ConfigMetaRow
config_meta_of k [] = none
config_meta_of k (m ∷ ms) = if m.profile_id == k then some m else config_meta_of k ms

abbrev pub app_meta_of : String → List AppMetaRow → Option AppMetaRow
app_meta_of k [] = none
app_meta_of k (m ∷ ms) = if m.process_name == k then some m else app_meta_of k ms

-- The row that a snapshot leaves: the new values, and the first sighting of the row that was there.
abbrev pub refreshed : ConfigMetaRow → Option ConfigMetaRow → ConfigMetaRow
refreshed m none = m
refreshed m (some o) = record m { first_seen = o.first_seen }

abbrev pub refreshed_app : AppMetaRow → Option AppMetaRow → AppMetaRow
refreshed_app m none = m
refreshed_app m (some o) = record m { first_seen = o.first_seen }

config_meta_of-put :
    (k : ℤ) (m : ConfigMetaRow) (ms : List ConfigMetaRow)
    → config_meta_of k (put_config_meta m ms) ≡ (
        if m.profile_id == k then some (refreshed m (config_meta_of k ms)) else config_meta_of k ms)
unfolding put_config_meta
config_meta_of-put k m [] = refl
config_meta_of-put k m (o ∷ os) = ground (
  arith,
  int_eq_iff o.profile_id m.profile_id,
  int_eq_iff o.profile_id k,
  int_eq_iff m.profile_id k,
  config_meta_of-put k m os,
)

app_meta_of-put :
    (k : String) (m : AppMetaRow) (ms : List AppMetaRow)
    → app_meta_of k (put_app_meta m ms) ≡ (
        if m.process_name == k then some (refreshed_app m (app_meta_of k ms)) else app_meta_of k ms)
unfolding put_app_meta
app_meta_of-put k m [] = refl
app_meta_of-put k m (o ∷ os) = ground (
  arith,
  eq_iff o.process_name m.process_name,
  eq_iff o.process_name k,
  eq_iff m.process_name k,
  app_meta_of-put k m os,
)

-- A metadata write that succeeds replaces the row of its profile but for the time of the first
-- sighting, which stays that of the row that was there, and leaves the rows of other profiles; the
-- same holds for apps.
pub meta_upserts :
    (k : ℤ) (p q path : String) (now : ℕ) (m : ConfigMetaRow) (r : Repo)
    → (config_meta_of k (upsert_config_meta false m r).config_meta ≡ (
        if m.profile_id == k
        then some (refreshed m (config_meta_of k r.config_meta))
        else config_meta_of k r.config_meta))
      × (app_meta_of q (upsert_app_meta false p path now r).app_meta ≡ (
          if p == q
          then some (
              refreshed_app
                (record { process_name = p; last_path = path; first_seen = now; last_seen = now })
                (app_meta_of q r.app_meta))
          else app_meta_of q r.app_meta))
unfolding upsert_config_meta upsert_app_meta
meta_upserts k p q path now m r = (
  config_meta_of-put k m r.config_meta,
  app_meta_of-put q
      (record { process_name = p; last_path = path; first_seen = now; last_seen = now }) r.app_meta,
)
