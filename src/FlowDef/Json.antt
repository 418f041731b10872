-- ===== src/FlowDef/Json.antt =====
-- What flow_def.rs of rust/gst-nmos-rs relies on of the crate serde_json: values, objects as maps
-- with text keys, and a printer whose output the parser reads back for values that are exact.
use nvnmos.Common.{
  ◌==◌, nat_Eq, text_Eq, Text, ℕ, ◌^◌, ◌≡◌, Bool, true, Option, none, some, List, ltb,
  if◌then◌else◌,
}

-- Signed numbers: `negsuc n` is -(n + 1).
pub data ℤ : Type 0 where
  pos : ℕ → ℤ
  negsuc : ℕ → ℤ

abbrev pub is_i32 : ℤ → Bool
is_i32 (pos n) = ltb n (2 ^ 31)
is_i32 (negsuc n) = ltb n (2 ^ 31)

pub record JsonLib : Type 1 where
  pub Value : Type 0
  pub Object : Type 0
  -- `serde_json::from_str::<Value>` and `to_string`
  pub from_str : Text → Option Value
  pub to_string : Value → Text
  -- No number of the value is a floating-point number, and it is nested no deeper than the parser reads.
  pub is_exact : Value → Bool
  pub from_str-to_string : (v : Value) → is_exact v ≡ true → from_str (to_string v) ≡ some v
  -- The variants of `Value`, and `as_object`, `as_array` and `as_str`
  pub object : Object → Value
  pub array : List Value → Value
  pub string : Text → Value
  pub as_object : Value → Option Object
  pub as_array : Value → Option (List Value)
  pub as_str : Value → Option Text
  pub number : ℤ → Value
  pub as_i64 : Value → Option ℤ
  pub as_i64-number : (n : ℤ) → is_i32 n ≡ true → as_i64 (number n) ≡ some n
  pub as_object-object : (o : Object) → as_object (object o) ≡ some o
  pub as_array-array : (vs : List Value) → as_array (array vs) ≡ some vs
  pub as_str-string : (t : Text) → as_str (string t) ≡ some t
  -- `serde_json::Map`
  pub new : Object
  pub get : Object → Text → Option Value
  pub insert : Object → Text → Value → Object
  pub remove : Object → Text → Object
  pub get-new : (k : Text) → get new k ≡ none
  pub get-insert :
      (o : Object) (k j : Text) (v : Value)
      → get (insert o k v) j ≡ (if k == j then some v else get o j)
  pub get-remove :
      (o : Object) (k j : Text) → get (remove o k) j ≡ (if k == j then none else get o j)
