-- ===== src/Json.antt =====
-- `serde_json::Value`, which AppOptR/src/tuning.rs and web.rs read: what its accessors answer.
use app_opt_r_plus.Prelude.{ℕ, ◌^◌, Bool, Option, none, some, List, [], ◌∷◌, ltb, if◌then◌else◌}
use app_opt_r_plus.Prelude.Int.{ℤ, pos, negsuc}
use app_opt_r_plus.Prelude.Text.{Text, text_eq}

-- A number is an integer or not; of the latter nothing is asked. An object has no two fields of one
-- name.
mutual
  pub data Value : Type 0 where
    null : Value
    bool : Bool → Value
    int : ℤ → Value
    real : Value
    str : Text → Value
    array : Items → Value
    object : Fields → Value

  pub data Items : Type 0 where
    nil : Items
    cons : Value → Items → Items

  pub data Fields : Type 0 where
    end : Fields
    field : Text → Value → Fields → Fields

abbrev pub items : Items → List Value
items nil = []
items (cons v vs) = v ∷ items vs

abbrev pub get_field : Text → Fields → Option Value
get_field name end = none
get_field name (field k v fs) = if text_eq k name then some v else get_field name fs

-- `Value::get` by a name.
abbrev pub get : Text → Value → Option Value
get name (object fs) = get_field name fs
get name _ = none

abbrev pub as_str : Value → Option Text
as_str (str s) = some s
as_str _ = none

abbrev pub as_bool : Value → Option Bool
as_bool (bool b) = some b
as_bool _ = none

abbrev pub as_object : Value → Option Fields
as_object (object fs) = some fs
as_object _ = none

abbrev pub as_u64 : Value → Option ℕ
as_u64 (int (pos n)) = if ltb n (2 ^ 64) then some n else none
as_u64 _ = none

abbrev pub as_i64 : Value → Option ℤ
as_i64 (int (pos n)) = if ltb n (2 ^ 63) then some (pos n) else none
as_i64 (int (negsuc n)) = if ltb n (2 ^ 63) then some (negsuc n) else none
as_i64 _ = none
