-- ===== src/Daemon/Sessions/Cases.antt =====
-- The outcomes of `prepare_open_session` and `prepare_add_node`, as rules for case analysis.
use nvnmos.Common.{
  ◌==◌, ==_iff, nat_Eq, text_Eq, Text, ℕ, ◌≡◌, inl, inr, Bool, false, none, some, [], ◌∷◌, arith,
  Bool-cases, Option-cases,
}
use nvnmos.HashMap
use nvnmos.HashMap.{HashMap}
use nvnmos.Wrapper.{NodeConfig}
use nvnmos.Daemon.Status.{
  Result-cases, Code, Result, invalid_argument, not_found, already_exists, failed_precondition,
  unavailable, ok, err,
}
use nvnmos.Daemon.Types.{side_Eq, name_key_Eq, seed_key_Eq, NodeEntry, persistent}
use nvnmos.Daemon.State.{State}
use nvnmos.Daemon.Ports.{resolve_http_port, PortRange}
use nvnmos.Daemon.Ports.Choice.{IsFree, Allowed, resolve_http_port-IsFree}
use nvnmos.Daemon.Sessions.{
  require_non_empty_seed, attach, reserve, prepare_open_session, prepare_add_node, is_refcounted,
  discard_node, remove_node, CreateNodePrep, OpenSessionPlan, attached, create,
}

module _ (bindable : ℕ → Bool) (s : State) (config : NodeConfig) (range : PortRange) where
  -- Why a Node can be built: its seed is new and its port is free.
  pub record CanBuild (port : ℕ) : Type 0 where
    pub no_node : HashMap.get s.nodes config.seed ≡ none
    pub not_pending : HashMap.contains_key s.pending_nodes config.seed ≡ false
    pub free : IsFree bindable s.http_ports port × Allowed config.http_port range port

  can_build :
      (port : ℕ)
      → HashMap.get s.nodes config.seed ≡ none
      → HashMap.contains_key s.pending_nodes config.seed ≡ false
      → resolve_http_port bindable s config.http_port range ≡ ok port
      → CanBuild port
  can_build port a b r = record {
    no_node = a;
    not_pending = b;
    free = resolve_http_port-IsFree bindable s config.http_port range port r;
  }

  pub prepare_open_session_cases {ℓ} :
      (P : State × Result OpenSessionPlan → Type ℓ)
      → ((c : Code) → P (s, err c))
      → ((n : NodeEntry)
          → HashMap.get s.nodes config.seed ≡ some n
          → P ((attach s config.seed n).0, ok (attached (attach s config.seed n).1)))
      → ((port : ℕ)
          → CanBuild port
          → P ((reserve s config port).0, ok (create (reserve s config port).1)))
      → P (prepare_open_session bindable s config range)
  unfolding prepare_open_session
  prepare_open_session_cases P refused joins builds =
      elim (Result-cases (require_non_empty_seed config.seed)) [
        | inl (c, e) ↦ rw (e, prepare_open_session) (refused c)
        | inr (_, e) ↦ elim (Option-cases (HashMap.get s.nodes config.seed)) [
          | inr (n, node) ↦
              rw (e, prepare_open_session) (rw (node, prepare_open_session) (joins n node))
          | inl none_there ↦ elim (Bool-cases (HashMap.contains_key s.pending_nodes config.seed)) [
            | inl pending ↦
                rw (e, prepare_open_session)
                  (rw (none_there, prepare_open_session) (rw pending (refused unavailable)))
            | inr idle ↦ elim (Result-cases (resolve_http_port bindable s config.http_port range)) [
              | inl (c, r) ↦
                  rw (e, prepare_open_session)
                    (rw (none_there, prepare_open_session)
                      (rw idle (rw (r, prepare_open_session) (refused c))))
              | inr (port, r) ↦
                  rw (e, prepare_open_session)
                    (rw (none_there, prepare_open_session)
                      (rw idle (
                        rw (r, prepare_open_session)
                          (builds port (can_build port none_there idle r)))))
            ]
          ]
        ]
      ]

  pub prepare_add_node_cases {ℓ} :
      (P : State × Result CreateNodePrep → Type ℓ)
      → ((c : Code) → P (s, err c))
      → ((port : ℕ) → CanBuild port → P ((reserve s config port).0, ok (reserve s config port).1))
      → P (prepare_add_node bindable s config range)
  unfolding prepare_add_node
  prepare_add_node_cases P refused builds =
      elim (Result-cases (require_non_empty_seed config.seed)) [
        | inl (c, e) ↦ rw (e, prepare_add_node) (refused c)
        | inr (_, e) ↦ elim (Option-cases (HashMap.get s.nodes config.seed)) [
          | inr (n, node) ↦ rw (e, prepare_add_node) (rw node (refused already_exists))
          | inl none_there ↦ elim (Bool-cases (HashMap.contains_key s.pending_nodes config.seed)) [
            | inl pending ↦
                rw (e, prepare_add_node) (rw none_there (rw pending (refused already_exists)))
            | inr idle ↦ elim (Result-cases (resolve_http_port bindable s config.http_port range)) [
              | inl (c, r) ↦
                  rw (e, prepare_add_node)
                    (rw none_there (rw idle (rw (r, prepare_add_node) (refused c))))
              | inr (port, r) ↦
                  rw (e, prepare_add_node)
                    (rw none_there (
                      rw idle (
                        rw (r, prepare_add_node) (builds port (can_build port none_there idle r)))))
            ]
          ]
        ]
      ]

pub remove_node_cases {ℓ} :
    (s : State) (seed : Text) (P : State × Result (Text × ℕ) → Type ℓ)
    → ((c : Code) → P (s, err c))
    → ((n : NodeEntry)
        → HashMap.get s.nodes seed ≡ some n
        → n.lifetime ≡ persistent
        → n.attached_sessions ≡ 0
        → P (discard_node s seed n, ok (n.node_id, n.server)))
    → P (remove_node s seed)
unfolding remove_node
remove_node_cases s [] P refused removed = refused invalid_argument
remove_node_cases s (x ∷ xs) P refused removed =
    elim (Option-cases (HashMap.get s.nodes (x ∷ xs))) [
      | inl none_there ↦ rw (none_there, remove_node) (refused not_found)
      | inr (n, node) ↦ elim (Bool-cases (is_refcounted n.lifetime)) [
        | inl r ↦ rw (node, remove_node) (rw (r, remove_node) (refused failed_precondition))
        | inr p ↦ elim (Bool-cases (n.attached_sessions == 0)) [
          | inl idle ↦
              rw (node, remove_node)
                (rw p
                  (rw idle (removed n node (ground arith) ((==_iff n.attached_sessions 0).0 idle))))
          | inr busy ↦ rw (node, remove_node) (rw p (rw busy (refused failed_precondition)))
        ]
      ]
    ]
