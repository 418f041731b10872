-- ===== src/Daemon/Requests.antt =====
-- The configuration of a Node, as a client sends it and as libnvnmos takes it: `translate_transport`
-- to `translate_network_services` of rust/nvnmosd/src/state.rs, and `decode_proto_transport` of
-- src/main.rs. A port on the wire is a `u32`; an `i32` that holds an enum is its bit pattern.
pub mod Accepted
use nvnmos.Common.{
  nat_Eq, text_Eq, Text, ℕ, ◌^◌, Bool, true, false, ◌&&◌, Option, none, some, List, [], ◌∷◌, ltb,
  nat_eq, if◌then◌else◌, any,
}
use nvnmos.Wrapper.{Transport, AssetConfig, NetworkServicesConfig, NodeConfig}
use nvnmos.Daemon.Status.{◌>>=◌, ◌>>◌, Result, invalid_argument, ok, err}

pub data ProtoTransport : Type 0 where
  unspecified rtp mxl : ProtoTransport

-- `decode_proto_transport`
unfoldable pub decode_proto_transport : ℕ → Result ProtoTransport
decode_proto_transport raw =
    if nat_eq raw 0
    then ok ProtoTransport.unspecified
    else if nat_eq raw 1
    then ok ProtoTransport.rtp
    else if nat_eq raw 2
    then ok ProtoTransport.mxl
    else err invalid_argument

-- `translate_transport`
unfoldable pub translate_transport : ProtoTransport → Result Transport
translate_transport ProtoTransport.unspecified = err invalid_argument
translate_transport ProtoTransport.rtp = ok Transport.rtp
translate_transport ProtoTransport.mxl = ok Transport.mxl

-- The fields of the messages are those of the wrapper's types; the ports are wider.
pub record ProtoNodeConfig : Type 0 where
  pub seed : Text
  pub host_name : Text
  pub host_addresses : List Text
  pub http_port : ℕ
  pub label : Text
  pub description : Text
  pub asset_tags : Option AssetConfig
  pub network_services : Option NetworkServicesConfig

-- `ProtoNodeConfig::default()`
abbrev pub default_config : ProtoNodeConfig
default_config = record {
  seed = [];
  host_name = [];
  host_addresses = [];
  http_port = 0;
  label = [];
  description = [];
  asset_tags = none;
  network_services = none;
}

-- `u16::try_from`, with the error that each caller makes of it
unfoldable pub port_of : ℕ → Result ℕ
port_of n = if ltb n (2 ^ 16) then ok n else err invalid_argument

abbrev pub is_empty : {A : Type 0} → List A → Bool
is_empty [] = true
is_empty (x ∷ xs) = false

-- `translate_asset_tags`
unfoldable pub translate_asset_tags : Option AssetConfig → Result (Option AssetConfig)
translate_asset_tags none = ok none
translate_asset_tags (some a) =
    if is_empty a.manufacturer
      && is_empty a.product
      && is_empty a.instance_id
      && is_empty a.functions
    then ok none
    else if is_empty a.manufacturer
    then err invalid_argument
    else if is_empty a.product
    then err invalid_argument
    else if is_empty a.instance_id
    then err invalid_argument
    else if is_empty a.functions
    then err invalid_argument
    else if any (λ (f : Text). is_empty f) a.functions
    then err invalid_argument
    else ok (some a)

abbrev pub is_default : NetworkServicesConfig → Bool
is_default n =
    is_empty n.domain
    && is_empty n.registration_address
    && nat_eq n.registration_port 0
    && is_empty n.registration_version
    && is_empty n.system_address
    && nat_eq n.system_port 0
    && is_empty n.system_version

-- `translate_network_services`
unfoldable pub translate_network_services :
    Option NetworkServicesConfig → Result (Option NetworkServicesConfig)
unfolding port_of
translate_network_services none = ok none
translate_network_services (some n) = if is_default n then ok none else do
  registration_port ← port_of n.registration_port
  system_port ← port_of n.system_port
  ok (some (record n { registration_port = registration_port; system_port = system_port }))

abbrev pub or_default : Option ProtoNodeConfig → ProtoNodeConfig
or_default none = default_config
or_default (some c) = c

-- `translate_config`
unfoldable pub translate_config : Option ProtoNodeConfig → Result NodeConfig
unfolding port_of translate_asset_tags translate_network_services
translate_config proto = do
  let c = or_default proto
  http_port ← port_of c.http_port
  asset_tags ← translate_asset_tags c.asset_tags
  network_services ← translate_network_services c.network_services
  ok (record {
    seed = c.seed;
    host_name = c.host_name;
    host_addresses = c.host_addresses;
    http_port = http_port;
    label = c.label;
    description = c.description;
    asset_tags = asset_tags;
    network_services = network_services;
    node_annotation = none;
    device_annotation = none;
  })
