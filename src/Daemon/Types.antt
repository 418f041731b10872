-- ===== src/Daemon/Types.antt =====
-- The entries of the daemon's maps (rust/nvnmosd/src/state.rs, lines 91 to 290 and 509 to 537).
-- A `NodeServer` behind its `Arc` is the number of the server that it is: the daemon clones and
-- compares nothing else of it. So is the sending half of a channel.
use nvnmos.Common.{ℕ, ◌≡◌, ◌↔◌, Bool, true, false, ◌&&◌, arith, Eq, ◌==◌, ==_iff, text_Eq, Text}
use nvnmos.HashMap.{HashMap}

pub data Lifetime : Type 0 where
  session_refcounted persistent : Lifetime

pub data Side : Type 0 where
  sender receiver : Side

abbrev pub side_eq : Side → Side → Bool
side_eq sender sender = true
side_eq receiver receiver = true
side_eq _ _ = false

pub side_eq_iff : (a b : Side) → (side_eq a b ≡ true) ↔ (a ≡ b)
side_eq_iff a b = ground arith

instance abbrev pub side_Eq : Eq Side
side_Eq = record { same = side_eq; decides = side_eq_iff }

-- `HashSet<String>`
abbrev pub HashSet : Type 0
HashSet = HashMap Text (Unit {0})

-- `(node_seed, side, name)`, the key of `State::by_name`.
pub record NameKey : Type 0 where
  pub node_seed : Text
  pub side : Side
  pub name : Text

abbrev pub name_key_eq : NameKey → NameKey → Bool
name_key_eq a b = a.node_seed == b.node_seed && a.side == b.side && a.name == b.name

pub name_key_eq_iff : (a b : NameKey) → (name_key_eq a b ≡ true) ↔ (a ≡ b)
name_key_eq_iff a b =
    ground (arith, ==_iff a.node_seed b.node_seed, ==_iff a.side b.side, ==_iff a.name b.name)

instance abbrev pub name_key_Eq : Eq NameKey
name_key_Eq = record { same = name_key_eq; decides = name_key_eq_iff }

-- `(node_seed, name)` and `(node_seed, output_id)`.
pub record SeedKey : Type 0 where
  pub node_seed : Text
  pub name : Text

abbrev pub seed_key_eq : SeedKey → SeedKey → Bool
seed_key_eq a b = a.node_seed == b.node_seed && a.name == b.name

pub seed_key_eq_iff : (a b : SeedKey) → (seed_key_eq a b ≡ true) ↔ (a ≡ b)
seed_key_eq_iff a b = ground (arith, ==_iff a.node_seed b.node_seed, ==_iff a.name b.name)

instance abbrev pub seed_key_Eq : Eq SeedKey
seed_key_Eq = record { same = seed_key_eq; decides = seed_key_eq_iff }

pub record ResourceEntry : Type 0 where
  pub name : Text
  pub node_seed : Text
  pub session_handle : Text
  pub side : Side

pub record NodeEntry : Type 0 where
  pub server : ℕ
  pub node_id : Text
  pub device_id : Text
  pub lifetime : Lifetime
  pub attached_sessions : ℕ
  pub http_port : ℕ

pub record SessionEntry : Type 0 where
  pub node_seed : Text
  pub resources : HashSet
  pub channelmappings : HashSet

pub record PendingActivation : Type 0 where
  pub session_handle : Text
  pub ack_tx : ℕ

pub record ChannelMappingEntry : Type 0 where
  pub name : Text
  pub node_seed : Text
  pub session_handle : Text
  pub input_ids : HashSet
  pub output_ids : HashSet
