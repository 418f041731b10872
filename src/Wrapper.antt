-- ===== src/Wrapper.antt =====
-- The types of the safe wrapper crate (rust/nvnmos/src/lib.rs) that the daemon works with. Its calls
-- into libnvnmos are not modelled: they are arguments of the definitions that make them.
use nvnmos.Common.{ℕ, ◌≡◌, ◌↔◌, Bool, true, false, Option, List, arith, Eq, Text}

pub data Error : Type 0 where
  interior_nul invalid_config failed invalid_utf8 : Error

pub data Transport : Type 0 where
  rtp mxl : Transport

pub data ResourceType : Type 0 where
  node device source flow sender receiver : ResourceType

abbrev pub resource_type_eq : ResourceType → ResourceType → Bool
resource_type_eq node node = true
resource_type_eq device device = true
resource_type_eq source source = true
resource_type_eq flow flow = true
resource_type_eq sender sender = true
resource_type_eq receiver receiver = true
resource_type_eq _ _ = false

pub resource_type_eq_iff : (a b : ResourceType) → (resource_type_eq a b ≡ true) ↔ (a ≡ b)
resource_type_eq_iff a b = ground arith

instance abbrev pub resource_type_Eq : Eq ResourceType
resource_type_Eq = record { same = resource_type_eq; decides = resource_type_eq_iff }

pub data Update : Type 0 where
  unchanged set reset : Update

pub record AnnotationTag : Type 0 where
  pub key : Text
  pub values_update : Update
  pub values : List Text

pub record Annotation : Type 0 where
  pub label_update : Update
  pub label : Option Text
  pub description_update : Update
  pub description : Option Text
  pub tags_update : Update
  pub tags : List AnnotationTag

pub record AnnotationUpdate : Type 0 where
  pub resource_type : ResourceType
  pub name : Option Text
  pub annotation : Annotation

pub record AssetConfig : Type 0 where
  pub manufacturer : Text
  pub product : Text
  pub instance_id : Text
  pub functions : List Text

-- Ports are `u16`s.
pub record NetworkServicesConfig : Type 0 where
  pub domain : Text
  pub registration_address : Text
  pub registration_port : ℕ
  pub registration_version : Text
  pub system_address : Text
  pub system_port : ℕ
  pub system_version : Text

-- The constant `log_level` is left out.
pub record NodeConfig : Type 0 where
  pub seed : Text
  pub host_name : Text
  pub host_addresses : List Text
  pub http_port : ℕ
  pub label : Text
  pub description : Text
  pub asset_tags : Option AssetConfig
  pub network_services : Option NetworkServicesConfig
  pub node_annotation : Option Annotation
  pub device_annotation : Option Annotation

pub record ActiveMapEntry : Type 0 where
  pub input_id : Option Text
  pub input_channel : Option ℕ

pub data ParentType : Type 0 where
  receiver source : ParentType

pub record ChannelMappingInput : Type 0 where
  pub id : Text
  pub name : Text
  pub description : Text
  pub channel_labels : List Text
  pub parent_name : Text
  pub parent_type : ParentType
  pub reordering : Bool
  pub block_size : ℕ

pub record ChannelMappingOutput : Type 0 where
  pub id : Text
  pub name : Text
  pub description : Text
  pub channel_labels : List Text
  pub sender_name : Text
  pub routable_inputs : Option (List Text)

pub record ChannelMappingConfig : Type 0 where
  pub inputs : List ChannelMappingInput
  pub outputs : List ChannelMappingOutput
