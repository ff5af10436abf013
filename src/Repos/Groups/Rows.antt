-- ===== src/Repos/Groups/Rows.antt =====
-- A group comes back from its row as it was saved (src/database/GroupsRepo.cpp).
use free_link_app.Common.{ℤ, ℤ_eq, String_eq, ◌≡◌, refl, Bool, true, false, List}
use free_link_app.Repos.Groups.{Group, IntLists, as_int, is_set, row_of, read_ints, group_of}

is_set-as_int : (b : Bool) → is_set (as_int b) ≡ b
is_set-as_int true = refl
is_set-as_int false = refl

read-print : (k : IntLists) (l : List ℤ) → read_ints k (k.print_ints l) ≡ l
unfolding read_ints
read-print k l = rw (k.print_some l, k.parse-print l) refl

-- A group that is read from its row has every field that is saved, under the id of the row.
pub group_of-row_of :
    (k : IntLists) (g : Group) (id : ℤ) → group_of k (row_of k g id) ≡ record g { id = id }
unfolding group_of row_of
group_of-row_of k g id =
    rw
      (
        read-print k g.column_width,
        read-print k g.profiles,
        is_set-as_int g.archive,
        is_set-as_int g.skip_auto_update,
        is_set-as_int g.auto_clear_unavailable,
      )
      refl
