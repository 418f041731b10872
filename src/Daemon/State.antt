-- ===== src/Daemon/State.antt =====
-- `State` of rust/nvnmosd/src/state.rs: the maps, the counters and their handles.
use nvnmos.Common.{ℕ, ◌+◌, ◌%◌, ◌^◌, ◌++◌, Text, codes, decimal}
use nvnmos.HashMap
use nvnmos.HashMap.{HashMap}
use nvnmos.Daemon.Types.{
  HashSet, NameKey, name_key_Eq, SeedKey, seed_key_Eq, ResourceEntry, NodeEntry, SessionEntry,
  PendingActivation, ChannelMappingEntry,
}
use nvnmos.Common.{text_Eq, nat_Eq}

-- The counters are `AtomicU64`s, and a subscription is the sending half of its channel.
pub record State : Type 0 where
  pub nodes : HashMap Text NodeEntry
  pub pending_nodes : HashSet
  pub sessions : HashMap Text SessionEntry
  pub resources : HashMap Text ResourceEntry
  pub by_name : HashMap NameKey Text
  pub subscriptions : HashMap Text ℕ
  pub annotation_subscriptions : HashMap Text ℕ
  pub pending_activations : HashMap Text PendingActivation
  pub channelmappings : HashMap Text ChannelMappingEntry
  pub channelmappings_by_name : HashMap SeedKey Text
  pub outputs_by_id : HashMap SeedKey Text
  pub channelmapping_subscriptions : HashMap Text ℕ
  pub pending_channelmapping_activations : HashMap Text PendingActivation
  pub http_ports : HashMap ℕ Text
  pub next_session_id : ℕ
  pub next_resource_id : ℕ
  pub next_activation_id : ℕ
  pub next_channelmapping_id : ℕ
  pub next_channelmapping_activation_id : ℕ

-- `State::new`
unfoldable pub new : State
new = record {
  nodes = HashMap.empty;
  pending_nodes = HashMap.empty;
  sessions = HashMap.empty;
  resources = HashMap.empty;
  by_name = HashMap.empty;
  subscriptions = HashMap.empty;
  annotation_subscriptions = HashMap.empty;
  pending_activations = HashMap.empty;
  channelmappings = HashMap.empty;
  channelmappings_by_name = HashMap.empty;
  outputs_by_id = HashMap.empty;
  channelmapping_subscriptions = HashMap.empty;
  pending_channelmapping_activations = HashMap.empty;
  http_ports = HashMap.empty;
  next_session_id = 0;
  next_resource_id = 0;
  next_activation_id = 0;
  next_channelmapping_id = 0;
  next_channelmapping_activation_id = 0;
}

-- `fetch_add(1)` on an `AtomicU64` wraps.
abbrev pub fetch_add : ℕ → ℕ
fetch_add n = (n + 1) % 2 ^ 64

unfoldable pub session_handle : ℕ → Text
session_handle n = codes "sess-" ++ decimal n

unfoldable pub resource_handle : ℕ → Text
resource_handle n = codes "res-" ++ decimal n

unfoldable pub activation_handle : ℕ → Text
activation_handle n = codes "act-" ++ decimal n

unfoldable pub channelmapping_handle : ℕ → Text
channelmapping_handle n = codes "cm-" ++ decimal n

unfoldable pub channelmapping_activation_handle : ℕ → Text
channelmapping_activation_handle n = codes "cm-act-" ++ decimal n
