-- ===== src/Repos/Groups.antt =====
-- GroupsRepo (src/database/GroupsRepo.cpp): the tables `groups` and `groups_order`, and the map of the
-- groups in memory. A std::shared_ptr is an index into the heap, which lists the objects in the order
-- in which they were made.
pub mod Rows
pub mod Shelf
pub mod Fetching
pub mod Placing
pub mod Represents
pub mod Removing
pub mod Refines
mod Examples
use free_link_app.Common.{
  ℕ, zero, suc, ◌+◌, ℤ, pos, negsuc, ℤ_eq, is_negative, String, String_eq, Bool, true, false, not,
  Option, none, some, List, [], ◌∷◌, ◌++◌, ◌==◌, ◌≡◌, if◌then◌else◌, length, lookup, insert, erase,
  keep, ltb, leb,
}
use free_link_app.Groups.{get_elem?, set_at}

-- Group, but for what is in memory only. An enumeration is its number.
pub record Group : Type 0 where
  pub id : ℤ
  pub archive : Bool
  pub skip_auto_update : Bool
  pub auto_clear_unavailable : Bool
  pub name : String
  pub url : String
  pub info : String
  pub sub_last_update : ℤ
  pub front_proxy_id : ℤ
  pub landing_proxy_id : ℤ
  pub column_width : List ℤ
  pub profiles : List ℤ
  pub scroll_last_profile : ℤ
  pub test_sort_by : ℤ
  pub traffic_sort_by : ℤ
  pub test_items_to_show : ℤ

-- NewGroup
abbrev pub new_group : Group
new_group = record {
  id = negsuc 0;
  archive = false;
  skip_auto_update = false;
  auto_clear_unavailable = false;
  name = "";
  url = "";
  info = "";
  sub_last_update = pos 0;
  front_proxy_id = negsuc 0;
  landing_proxy_id = negsuc 0;
  column_width = [];
  profiles = [];
  scroll_last_profile = negsuc 0;
  test_sort_by = pos 0;
  traffic_sort_by = pos 0;
  test_items_to_show = pos 0;
}

-- A row of the table `groups`.
pub record GroupRow : Type 0 where
  pub id : ℤ
  pub archive : ℤ
  pub skip_auto_update : ℤ
  pub auto_clear_unavailable : ℤ
  pub name : String
  pub url : String
  pub info : String
  pub sub_last_update : ℤ
  pub front_proxy_id : ℤ
  pub landing_proxy_id : ℤ
  pub column_width_json : String
  pub profiles_json : String
  pub scroll_last_profile : ℤ
  pub test_sort_by : ℤ
  pub traffic_sort_by : ℤ
  pub test_items_to_show : ℤ

-- A JSON array of numbers as text, and the numbers of a text that is one (QJsonDocument).
pub record IntLists : Type 0 where
  pub print_ints : List ℤ → String
  pub parse_ints : String → Option (List ℤ)
  pub print_some : (l : List ℤ) → (print_ints l == "") ≡ false
  pub parse-print : (l : List ℤ) → parse_ints (print_ints l) ≡ some l

abbrev pub as_int : Bool → ℤ
as_int true = pos 1
as_int false = pos 0

abbrev pub is_set : ℤ → Bool
is_set n = not (n == pos 0)

abbrev at_most : ℤ → ℤ → Bool
at_most (pos m) (pos n) = leb m n
at_most (pos m) (negsuc n) = false
at_most (negsuc m) (pos n) = true
at_most (negsuc m) (negsuc n) = leb n m

abbrev next_int : ℤ → ℤ
next_int (pos n) = pos (n + 1)
next_int (negsuc zero) = pos 0
next_int (negsuc (suc n)) = negsuc n

pub record GroupsRepo : Type 0 where
  pub heap : List Group
  pub mem_map : List (ℤ × ℕ)
  pub rows : List (ℤ × GroupRow)
  -- groups_order: group_id and display_order
  pub order : List (ℤ × ℤ)
  -- entity_ids.group_last_id
  pub last_id : ℕ

-- SELECT MAX(display_order), which is read as 0 where the table is empty
abbrev max_order : List (ℤ × ℤ) → ℤ
max_order [] = pos 0
max_order ((g, n) ∷ []) = n
max_order ((g, n) ∷ (g', n') ∷ rest) =
    let other = max_order ((g', n') ∷ rest) in if at_most n other then other else n

-- DeleteGroup
unfoldable pub delete_group : ℤ → GroupsRepo → GroupsRepo
delete_group id r = record r {
  mem_map = erase id r.mem_map;
  order = erase id r.order;
  rows = erase id r.rows;
}

module _ (k : IntLists) where
  -- The values of saveToDatabase.
  unfoldable pub row_of : Group → ℤ → GroupRow
  row_of group id = record {
    id = id;
    archive = as_int group.archive;
    skip_auto_update = as_int group.skip_auto_update;
    auto_clear_unavailable = as_int group.auto_clear_unavailable;
    name = group.name;
    url = group.url;
    info = group.info;
    sub_last_update = group.sub_last_update;
    front_proxy_id = group.front_proxy_id;
    landing_proxy_id = group.landing_proxy_id;
    column_width_json = k.print_ints group.column_width;
    profiles_json = k.print_ints group.profiles;
    scroll_last_profile = group.scroll_last_profile;
    test_sort_by = group.test_sort_by;
    traffic_sort_by = group.traffic_sort_by;
    test_items_to_show = group.test_items_to_show;
  }

  -- A list of a row; what is no array is empty.
  unfoldable pub read_ints : String → List ℤ
  read_ints text = if text == "" then [] else elim (k.parse_ints text) [ none ↦ [] | some l ↦ l ]

  -- The group of a row, as loadFromDatabase and groupFromJson read it.
  unfoldable pub group_of : GroupRow → Group
  unfolding read_ints
  group_of row = record {
    id = row.id;
    archive = is_set row.archive;
    skip_auto_update = is_set row.skip_auto_update;
    auto_clear_unavailable = is_set row.auto_clear_unavailable;
    name = row.name;
    url = row.url;
    info = row.info;
    sub_last_update = row.sub_last_update;
    front_proxy_id = row.front_proxy_id;
    landing_proxy_id = row.landing_proxy_id;
    column_width = read_ints row.column_width_json;
    profiles = read_ints row.profiles_json;
    scroll_last_profile = row.scroll_last_profile;
    test_sort_by = row.test_sort_by;
    traffic_sort_by = row.traffic_sort_by;
    test_items_to_show = row.test_items_to_show;
  }

  -- saveToDatabase
  unfoldable pub save_to_database : Group → ℤ → GroupsRepo → GroupsRepo
  save_to_database group id r = record r { rows = insert id (row_of group id) r.rows }

  -- loadFromDatabase
  unfoldable pub load_from_database : ℤ → GroupsRepo → Option Group
  load_from_database id r = elim (lookup id r.rows) [ none ↦ none | some row ↦ some (group_of row) ]

  abbrev pub added : Group → ℕ → GroupsRepo → GroupsRepo
  added group p r =
      let id = pos (r.last_id + 1) in
      let named = record group { id = id } in
      let saved = save_to_database named id (record r {
        heap = set_at p named r.heap;
        mem_map = insert id p r.mem_map;
        last_id = r.last_id + 1;
      }) in
      record saved { order = saved.order ++ (id, next_int (max_order saved.order)) ∷ [] }

  -- AddGroup, for the object at `p`; a pointer to nothing is no call.
  unfoldable pub add_group : ℕ → GroupsRepo → GroupsRepo × Bool
  unfolding save_to_database
  add_group p r = elim (get_elem? r.heap p) [
    | none ↦ (r, false)
    | some group ↦ if not (is_negative group.id) then (r, false) else (added group p r, true)
  ]

  -- GetGroup
  unfoldable pub get_group : ℤ → GroupsRepo → GroupsRepo × Option ℕ
  unfolding load_from_database
  get_group id r = elim (lookup id r.mem_map) [
    | some p ↦ (r, some p)
    | none ↦ elim (load_from_database id r) [
      | none ↦ (r, none)
      | some group ↦
          let p = length r.heap in
          (record r { heap = r.heap ++ group ∷ []; mem_map = insert id p r.mem_map }, some p)
    ]
  ]

  -- Save, for the object at `p`
  unfoldable pub save : ℕ → GroupsRepo → GroupsRepo × Bool
  unfolding save_to_database
  save p r = elim (get_elem? r.heap p) [
    | none ↦ (r, false)
    | some group ↦
        let saved = save_to_database group group.id r in
        if is_negative group.id
        then (r, false)
        else (record saved { mem_map = insert group.id p saved.mem_map }, true)
  ]
