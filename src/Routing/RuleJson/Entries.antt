-- ===== src/Routing/RuleJson/Entries.antt =====
-- The objects that a row of `if (…) obj["…"] = …;` builds, as in `get_rule_json` of
-- src/database/entities/RouteRule.cpp.
use free_link_app.Common.{
  ◌≤◌, String, String_eq, ◌≡◌, refl, ap, sym, ◌∙◌, Bool, true, false, not, ◌&&◌, ◌||◌, List, [],
  ◌∷◌, ◌++◌, ◌==◌, if◌then◌else◌, arith,
}
use text.Mathlib.TextEquality.{eq_iff}
use free_link_app.Json.{Json, Fields, end, field, set_key, count_keys, is_empty_object}
use free_link_app.Routing.RuleJson.{Entry, put_entry, put_entries}

abbrev pub has_key : String → Fields → Bool
has_key k end = false
has_key k (field j v fs) = j == k || has_key k fs

-- The entries whose condition holds, in order.
abbrev pub kept : List Entry → Fields
kept [] = end
kept ((c, k, v) ∷ es) = if c then field k v (kept es) else kept es

-- Whether an entry of a list sets a key.
abbrev pub offers : String → List Entry → Bool
offers k [] = false
offers k ((c, j, v) ∷ es) = j == k && c || offers k es

abbrev pub names : String → List Entry → Bool
names k [] = false
names k ((c, j, v) ∷ es) = j == k || names k es

-- No two entries name one key.
abbrev pub distinct : List Entry → Bool
distinct [] = true
distinct ((c, k, v) ∷ es) = not (names k es) && distinct es

abbrev append_fields : Fields → Fields → Fields
append_fields end gs = gs
append_fields (field k v fs) gs = field k v (append_fields fs gs)

abbrev fresh : List Entry → Fields → Bool
fresh [] o = true
fresh ((c, k, v) ∷ es) o = not (has_key k o) && fresh es o

set_key-new :
    (k : String) (v : Json) (o : Fields)
    → has_key k o ≡ false
    → set_key k v o ≡ append_fields o (field k v end)
unfolding set_key
set_key-new k v end h = refl
set_key-new k v (field j w fs) h = ground (arith, set_key-new k v fs)

has_key-append :
    (j k : String) (v : Json) (o : Fields)
    → has_key j (append_fields o (field k v end)) ≡ (has_key j o || k == j)
has_key-append j k v end = ground arith
has_key-append j k v (field i w fs) = ground (arith, has_key-append j k v fs)

fresh-append :
    (es : List Entry) (k : String) (v : Json) (o : Fields)
    → fresh es o ≡ true
    → names k es ≡ false
    → fresh es (append_fields o (field k v end)) ≡ true
fresh-append [] k v o h n = refl
fresh-append ((c, j, w) ∷ es) k v o h n =
    ground (arith, fresh-append es k v o, has_key-append j k v o, eq_iff j k, eq_iff k j)

append_fields_assoc :
    (o : Fields) (k : String) (v : Json) (gs : Fields)
    → append_fields (append_fields o (field k v end)) gs ≡ append_fields o (field k v gs)
append_fields_assoc end k v gs = refl
append_fields_assoc (field j w fs) k v gs = ap (field j w) (append_fields_assoc fs k v gs)

append_fields_end : (o : Fields) → append_fields o end ≡ o
append_fields_end end = refl
append_fields_end (field k v fs) = ap (field k v) (append_fields_end fs)

put_entries-append :
    (es : List Entry) (o : Fields)
    → distinct es ≡ true
    → fresh es o ≡ true
    → put_entries es o ≡ append_fields o (kept es)
unfolding put_entries
put_entries-append [] o d f = sym (append_fields_end o)
put_entries-append ((false, k, v) ∷ es) o d f =
    put_entries-append es o (ground arith) (ground arith)
put_entries-append ((true, k, v) ∷ es) o d f =
    let step = set_key-new k v o (ground arith) in
    ap (put_entries es) step
    ∙ put_entries-append es (append_fields o (field k v end)) (ground arith)
        (fresh-append es k v o (ground arith) (ground arith))
    ∙ append_fields_assoc o k v (kept es)

fresh-end : (es : List Entry) → fresh es end ≡ true
fresh-end [] = refl
fresh-end ((c, k, v) ∷ es) = fresh-end es

-- Entries with different keys build the object of those whose condition holds.
pub put_entries-kept : (es : List Entry) → distinct es ≡ true → put_entries es end ≡ kept es
put_entries-kept es d = put_entries-append es end d (fresh-end es)

pub put_entries-snoc :
    (es : List Entry) (e : Entry) (o : Fields)
    → put_entries (es ++ e ∷ []) o ≡ put_entry e (put_entries es o)
unfolding put_entries
put_entries-snoc [] e o = refl
put_entries-snoc (x ∷ es) e o = put_entries-snoc es e (put_entry x o)

pub has_key-kept : (k : String) (es : List Entry) → has_key k (kept es) ≡ offers k es
has_key-kept k [] = refl
has_key-kept k ((c, j, v) ∷ es) = ground (arith, has_key-kept k es)

pub one_key : (k : String) (o : Fields) → has_key k o ≡ true → 1 ≤ count_keys o
one_key k end h = cc
one_key k (field j v fs) h = omega arith

pub two_keys :
    (j k : String) (o : Fields)
    → has_key j o ≡ true
    → has_key k o ≡ true
    → (j == k) ≡ false
    → 2 ≤ count_keys o
two_keys j k end h g n = cc
two_keys j k (field i v fs) h g n =
    ground (arith, one_key j fs, one_key k fs, eq_iff i j, eq_iff i k, eq_iff j k)

pub not_empty_object : (k : String) (o : Fields) → has_key k o ≡ true → is_empty_object o ≡ false
not_empty_object k end h = cc
not_empty_object k (field j v fs) h = refl
