-- ===== src/Daemon/ChannelMappings/Translate.antt =====
-- From the gRPC messages to the wrapper's types: `is_channelmapping_id` to `build_channelmapping` of
-- rust/nvnmosd/src/state.rs.
use nvnmos.Common.{
  ◌==◌, nat_Eq, text_Eq, Text, codes, decimal, ℕ, ◌+◌, Bool, ◌&&◌, ◌||◌, not, Option, none, some,
  List, [], ◌∷◌, ◌++◌, map, leb, if◌then◌else◌, all,
}
use nvnmos.Wrapper.{ParentType, ChannelMappingInput, ChannelMappingOutput, ChannelMappingConfig}
use mathlib.Core.List.{zip}

pub record ProtoInput : Type 0 where
  pub id : Text
  pub name : Text
  pub description : Text
  pub channel_labels : List Text
  pub parent_name : Text
  pub parent_type : ℕ
  pub reordering : Bool
  pub block_size : ℕ

pub record ProtoOutput : Type 0 where
  pub id : Text
  pub name : Text
  pub description : Text
  pub channel_labels : List Text
  pub sender_name : Text
  pub routable_inputs : List Text

abbrev between : ℕ → ℕ → ℕ → Bool
between lo hi c = leb lo c && leb c hi

-- ASCII letters, digits, '-' and '_'.
unfoldable pub is_id_byte : ℕ → Bool
is_id_byte c =
    between b'0' b'9' c || between b'A' b'Z' c || between b'a' b'z' c || c == b'-' || c == b'_'

unfoldable pub is_channelmapping_id : Text → Bool
unfolding is_id_byte
is_channelmapping_id id = not (id == []) && all is_id_byte id

-- An empty id is replaced by the prefix and the position.
unfoldable pub or_default : Text → ℕ → Text → Text
or_default prefix index [] = prefix ++ decimal index
or_default prefix index (c ∷ id) = c ∷ id

unfoldable pub ids_from : Text → ℕ → List Text → List Text
unfolding or_default
ids_from prefix index [] = []
ids_from prefix index (id ∷ ids) = or_default prefix index id ∷ ids_from prefix (index + 1) ids

-- `effective_channelmapping_input_ids`
unfoldable pub effective_input_ids : List ProtoInput → List Text
unfolding ids_from
effective_input_ids inputs = ids_from (codes "input") 0 (map (λ i. i.id) inputs)

-- `effective_channelmapping_output_ids`
unfoldable pub effective_output_ids : List ProtoOutput → List Text
unfolding ids_from
effective_output_ids outputs = ids_from (codes "output") 0 (map (λ o. o.id) outputs)

-- `channelmapping_parent_type`; the proto enumeration numbers SOURCE 1.
unfoldable pub parent_type_of : ℕ → ParentType
parent_type_of raw = if raw == 1 then ParentType.source else ParentType.receiver

unfoldable pub routable : List Text → Option (List Text)
routable [] = none
routable (id ∷ ids) = some (id ∷ ids)

unfoldable pub build_input : ProtoInput × Text → ChannelMappingInput
unfolding parent_type_of
build_input (input, id) = record {
  id = id;
  name = input.name;
  description = input.description;
  channel_labels = input.channel_labels;
  parent_name = input.parent_name;
  parent_type = parent_type_of input.parent_type;
  reordering = input.reordering;
  block_size = input.block_size;
}

unfoldable pub build_output : ProtoOutput × Text → ChannelMappingOutput
unfolding routable
build_output (output, id) = record {
  id = id;
  name = output.name;
  description = output.description;
  channel_labels = output.channel_labels;
  sender_name = output.sender_name;
  routable_inputs = routable output.routable_inputs;
}

unfoldable pub build_channelmapping :
    List ProtoInput → List ProtoOutput → List Text → List Text → ChannelMappingConfig
unfolding build_input build_output
build_channelmapping inputs outputs input_ids output_ids = record {
  inputs = map build_input (zip inputs input_ids);
  outputs = map build_output (zip outputs output_ids);
}
