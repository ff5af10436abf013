-- ===== src/Json.antt =====
-- The JSON values of Qt (QJsonValue, QJsonObject, QJsonArray). A number is an integer: the code reads
-- every number by `toInt`. An object keeps the order of insertion; no modelled result depends on the
-- order of keys but the order of warnings.
use free_link_app.Common.{
  ℕ, suc, ℤ, String, String_eq, ◌≡◌, refl, Bool, true, false, Option, none, some, List, [], ◌∷◌,
  arith, ◌==◌, if◌then◌else◌,
}
use text.Mathlib.TextEquality.{eq_iff}

mutual
  pub data Json : Type 0 where
    null : Json
    bool : Bool → Json
    num : ℤ → Json
    str : String → Json
    arr : Items → Json
    obj : Fields → Json

  pub data Items : Type 0 where
    nil : Items
    cons : Json → Items → Items

  pub data Fields : Type 0 where
    end : Fields
    field : String → Json → Fields → Fields

-- obj[k] = v
unfoldable pub set_key : String → Json → Fields → Fields
set_key k v end = field k v end
set_key k v (field j w fs) = if j == k then field k v fs else field j w (set_key k v fs)

-- obj.value(k), which is undefined where the key is missing
unfoldable pub get_key : String → Fields → Option Json
get_key k end = none
get_key k (field j w fs) = if j == k then some w else get_key k fs

-- obj.keys().length()
abbrev pub count_keys : Fields → ℕ
count_keys end = 0
count_keys (field k v fs) = suc (count_keys fs)

abbrev pub is_empty_object : Fields → Bool
is_empty_object end = true
is_empty_object (field k v fs) = false

abbrev pub to_items : List Json → Items
to_items [] = nil
to_items (v ∷ vs) = cons v (to_items vs)

abbrev pub of_items : Items → List Json
of_items nil = []
of_items (cons v vs) = v ∷ of_items vs

-- QJsonValue::toString, empty for what is no text
abbrev pub to_text : Json → String
to_text (str s) = s
to_text _ = ""

-- QJsonValue::toBool, false for what is no truth value
abbrev pub to_bool : Json → Bool
to_bool (bool b) = b
to_bool _ = false

abbrev pub to_object : Json → Fields
to_object (obj fs) = fs
to_object _ = end

abbrev pub to_array : Json → Items
to_array (arr vs) = vs
to_array _ = nil

abbrev pub text_at : String → Fields → String
text_at k fs = elim (get_key k fs) [ none ↦ "" | some v ↦ to_text v ]

abbrev pub bool_at : String → Fields → Bool
bool_at k fs = elim (get_key k fs) [ none ↦ false | some v ↦ to_bool v ]

abbrev pub object_at : String → Fields → Fields
object_at k fs = elim (get_key k fs) [ none ↦ end | some v ↦ to_object v ]

abbrev pub array_at : String → Fields → Items
array_at k fs = elim (get_key k fs) [ none ↦ nil | some v ↦ to_array v ]

pub get_key-set_key :
    (j k : String) (v : Json) (fs : Fields)
    → get_key j (set_key k v fs) ≡ (if k == j then some v else get_key j fs)
unfolding get_key set_key
get_key-set_key j k v end = refl
get_key-set_key j k v (field i w fs) =
    ground (arith, get_key-set_key j k v fs, eq_iff i k, eq_iff i j, eq_iff k j)
