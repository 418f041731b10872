-- ===== src/Daemon/TransportFile.antt =====
-- `transport_file_name` of rust/nvnmosd/src/state.rs: the name that a transport file carries.
pub mod Names
use nvnmos.Common.{
  ◌==◌, nat_Eq, text_Eq, Text, codes, starts_with, true, false, Option, none, some, List, [], ◌∷◌,
  if◌then◌else◌,
}
use nvnmos.Wrapper.{Transport, rtp, mxl}
use mathlib.Core.List.{reverse}

-- Rust's `str::strip_suffix('\r')`, on a line kept backwards.
drop_cr : Text → Text
drop_cr [] = []
drop_cr (c ∷ s) = if c == 13 then s else c ∷ s

-- What is left when the text ends: a line, unless it is empty.
last_line : Text → List Text
last_line [] = []
last_line (c ∷ s) = reverse (c ∷ s) ∷ []

-- `line` holds the bytes of the current line, the latest first.
lines_from : Text → Text → List Text
lines_from line [] = last_line line
lines_from line (c ∷ s) = elim (c == 10) [
  | true ↦ reverse (drop_cr line) ∷ lines_from [] s
  | false ↦ lines_from (c ∷ line) s
]

-- `str::lines`
unfoldable pub lines : Text → List Text
unfolding lines_from last_line drop_cr
lines s = lines_from [] s

-- `str::strip_prefix`
unfoldable pub strip_prefix : Text → Text → Option Text
strip_prefix [] s = some s
strip_prefix (c ∷ p) [] = none
strip_prefix (c ∷ p) (d ∷ s) = if c == d then strip_prefix p s else none

abbrev pub media_prefix : Text
media_prefix = codes "m="

abbrev pub name_prefix : Text
name_prefix = codes "a=x-nvnmos-name:"

-- `take_while(|line| !line.starts_with("m="))`
unfoldable pub session_level : List Text → List Text
unfolding starts_with
session_level [] = []
session_level (l ∷ ls) =
    let rest = session_level ls in if starts_with media_prefix l then [] else l ∷ rest

-- `find_map(|line| line.strip_prefix("a=x-nvnmos-name:"))`
unfoldable pub first_name : List Text → Option Text
unfolding strip_prefix
first_name [] = none
first_name (l ∷ ls) = elim (strip_prefix name_prefix l) [
  | some name ↦ some name
  | none ↦ first_name ls
]

abbrev pub non_empty : Text → Option Text
non_empty [] = none
non_empty (c ∷ s) = some (c ∷ s)

-- The first value of the name tag of a flow definition is read by serde_json, an argument here.
unfoldable pub transport_file_name : (Text → Option Text) → Transport → Text → Option Text
unfolding lines session_level first_name
transport_file_name flow_def_tag rtp file = elim (first_name (session_level (lines file))) [
  | none ↦ none
  | some name ↦ non_empty name
]
transport_file_name flow_def_tag mxl file = elim (flow_def_tag file) [
  | none ↦ none
  | some name ↦ non_empty name
]
