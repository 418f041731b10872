-- ===== src/Daemon/Promises/Nodes.antt =====
-- What the operations on Nodes and sessions of rust/nvnmosd/src/state.rs promise.
use nvnmos.Common.{
  nat_Eq, text_Eq, Text, ℕ, ◌≡◌, refl, sym, ◌≢◌, ◌↔◌, inl, inr, Bool, false, some, [], ◌∷◌, arith,
  Option-cases,
}
use nvnmos.HashMap
use nvnmos.HashMap.{HashMap}
use nvnmos.Wrapper.{NodeConfig}
use nvnmos.Daemon.Types.{side_Eq, name_key_Eq, seed_key_Eq, NodeEntry, persistent}
use nvnmos.Daemon.State.{State}
use nvnmos.Daemon.Status.{Result-cases, ok}
use nvnmos.Daemon.Ports.{resolve_http_port, PortRange}
use nvnmos.Daemon.Ports.Choice.{IsFree, Allowed, resolve_http_port_refuses}
use nvnmos.Daemon.Sessions.{
  require_non_empty_seed, prepare_open_session, remove_node, OpenSessionPlan,
}
use nvnmos.Daemon.Sessions.Cases.{remove_node_cases}

-- What `remove_node` wants of a Node: it was added by itself, and no session is attached.
pub record IsIdle (s : State) (seed : Text) (n : NodeEntry) : Type 0 where
  pub named : seed ≢ []
  pub node : HashMap.get s.nodes seed ≡ some n
  pub kept : n.lifetime ≡ persistent
  pub idle : n.attached_sessions ≡ 0

remove_node_named :
    (s : State) (seed : Text) (o : Text × ℕ) → (remove_node s seed).1 ≡ ok o → seed ≢ []
unfolding remove_node
remove_node_named s [] o h q = absurd (ground arith)
remove_node_named s (c ∷ seed) o h q = absurd (ground arith)

remove_node_idle :
    (s : State) (seed : Text) (n : NodeEntry)
    → IsIdle s seed n
    → (remove_node s seed).1 ≡ ok (n.node_id, n.server)
unfolding remove_node
remove_node_idle s [] n i = absurd (i.named refl)
remove_node_idle s (c ∷ seed) n i = rw (i.node, remove_node) (rw i.kept (rw i.idle refl))

-- `remove_node` succeeds exactly for a persistent Node that has no session, and then answers with
-- its id and the server to drop.
pub remove_node_iff :
    (s : State) (seed node_id : Text) (server : ℕ)
    → ((remove_node s seed).1 ≡ ok (node_id, server))
      ↔ ((n : NodeEntry) × IsIdle s seed n × (n.node_id ≡ node_id) × (n.server ≡ server))
remove_node_iff s seed node_id server =
    (only_idle, λ (n, i, a, b). rw (sym a, sym b) (remove_node_idle s seed n i))
  where
    only_idle :
        (remove_node s seed).1 ≡ ok (node_id, server)
        → (n : NodeEntry) × IsIdle s seed n × (n.node_id ≡ node_id) × (n.server ≡ server)
    only_idle h =
        remove_node_cases s seed
          (λ r.
            r.1 ≡ ok (node_id, server)
            → (n : NodeEntry) × IsIdle s seed n × (n.node_id ≡ node_id) × (n.server ≡ server))
          (λ c e. absurd (ground arith))
          (λ n node k i e. (
            n,
            record {
              named = remove_node_named s seed (node_id, server) h;
              node = node;
              kept = k;
              idle = i;
            },
            ground arith,
            ground arith,
          ))
          h

-- The port that a request may have is free, or the Node is there already.
pub data CanOpen (bindable : ℕ → Bool) (s : State) (config : NodeConfig) (range : PortRange)
    : Type 0 where
  by_node :
      (n : NodeEntry) → HashMap.get s.nodes config.seed ≡ some n → CanOpen bindable s config range
  by_port :
      (port : ℕ)
      → HashMap.contains_key s.pending_nodes config.seed ≡ false
      → IsFree bindable s.http_ports port
      → Allowed config.http_port range port
      → CanOpen bindable s config range

required : (seed : Text) → seed ≢ [] → require_non_empty_seed seed ≡ ok tt
unfolding require_non_empty_seed
required [] h = absurd (h refl)
required (c ∷ seed) h = refl

-- Opening a session is never refused when its seed is not empty, and the seed has a Node, or it is
-- not being built and a port that the request allows is free.
pub prepare_open_session_opens :
    (bindable : ℕ → Bool) (s : State) (config : NodeConfig) (range : PortRange)
    → config.seed ≢ []
    → CanOpen bindable s config range
    → (plan : OpenSessionPlan) × ((prepare_open_session bindable s config range).1 ≡ ok plan)
unfolding prepare_open_session
prepare_open_session_opens bindable s config range seeded (by_node n node) =
    rw (required config.seed seeded, prepare_open_session)
      (rw (node, prepare_open_session) (_, refl))
prepare_open_session_opens bindable s config range seeded (by_port port idle free allowed) =
    elim (Option-cases (HashMap.get s.nodes config.seed)) [
      | inr (n, node) ↦
          rw (required config.seed seeded, prepare_open_session)
            (rw (node, prepare_open_session) (_, refl))
      | inl absent ↦ elim (Result-cases (resolve_http_port bindable s config.http_port range)) [
        | inl (c, r) ↦
            absurd
              (resolve_http_port_refuses bindable s config.http_port range c port r allowed free)
        | inr (p, r) ↦
            rw (required config.seed seeded, prepare_open_session)
              (rw (absent, prepare_open_session) (rw idle (rw (r, prepare_open_session) (_, refl))))
      ]
    ]
