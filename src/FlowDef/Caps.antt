-- ===== src/FlowDef/Caps.antt =====
-- Flow definitions and essence caps: `from_caps` and `caps_from` of
-- rust/gst-nmos-rs/src/flow_def.rs, with what they rely on of GStreamer.
pub mod Build
pub mod Parse
pub mod Document
pub mod Shapes
pub mod Carried
pub mod Essence
use nvnmos.Common.{
  ◌==◌, nat_Eq, text_Eq, Text, ◌≡◌, true, false, Option, none, some, List, [], ◌∷◌, if◌then◌else◌,
}
use nvnmos.FlowDef.Json.{is_i32, ℤ}

-- The value of a field of a structure, of the three types that are read here.
pub data GValue (Fraction : Type 0) : Type 0 where
  string : Text → GValue Fraction
  int : ℤ → GValue Fraction
  fraction : Fraction → GValue Fraction

abbrev pub find_field : {A : Type 0} → Text → List (Text × A) → Option A
find_field k [] = none
find_field k ((j, a) ∷ fields) = elim (j == k) [ true ↦ some a | false ↦ find_field k fields ]

abbrev pub as_string : {F : Type 0} → Option (GValue F) → Option Text
as_string (some (string t)) = some t
as_string _ = none

abbrev pub as_fraction : {F : Type 0} → Option (GValue F) → Option F
as_fraction (some (fraction f)) = some f
as_fraction _ = none

-- Structures, their builder and `gst::Fraction`, which is kept in lowest terms.
pub record GstLib : Type 1 where
  pub Structure : Type 0
  pub Fraction : Type 0
  pub structure_name : Structure → Text
  pub get_string : Structure → Text → Option Text
  pub get_i32 : Structure → Text → Option ℤ
  pub get_fraction : Structure → Text → Option Fraction
  pub numer : Fraction → ℤ
  pub denom : Fraction → ℤ
  pub new_fraction : ℤ → ℤ → Fraction
  pub new-numer-denom : (f : Fraction) → new_fraction (numer f) (denom f) ≡ f
  -- `gst::Caps::builder(name).field(…)….build()`, for its one structure
  pub build : Text → List (Text × GValue Fraction) → Structure
  pub structure_name-build :
      (n : Text) (fs : List (Text × GValue Fraction)) → structure_name (build n fs) ≡ n
  pub get_string-build :
      (n : Text) (fs : List (Text × GValue Fraction)) (k : Text)
      → get_string (build n fs) k ≡ as_string (find_field k fs)
  pub get_i32-build :
      (n : Text) (fs : List (Text × GValue Fraction)) (k : Text) (i : ℤ)
      → find_field k fs ≡ some (int i)
      → is_i32 i ≡ true
      → get_i32 (build n fs) k ≡ some i
  pub get_fraction-build :
      (n : Text) (fs : List (Text × GValue Fraction)) (k : Text)
      → get_fraction (build n fs) k ≡ as_fraction (find_field k fs)
  -- An `i32` is one.
  pub get_i32_range : (s : Structure) (k : Text) (n : ℤ) → get_i32 s k ≡ some n → is_i32 n ≡ true
  pub numer_range : (f : Fraction) → is_i32 (numer f) ≡ true
  pub denom_range : (f : Fraction) → is_i32 (denom f) ≡ true
  -- `Structure::set`, for a text
  pub set_string : Structure → Text → Text → Structure
  pub structure_name-set_string :
      (s : Structure) (k t : Text) → structure_name (set_string s k t) ≡ structure_name s
  pub get_string-set_string :
      (s : Structure) (k t j : Text)
      → get_string (set_string s k t) j ≡ (if k == j then some t else get_string s j)
