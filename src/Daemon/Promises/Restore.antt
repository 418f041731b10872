-- ===== src/Daemon/Promises/Restore.antt =====
-- An abort undoes the first section of OpenSession, and a close undoes an attach
-- (rust/nvnmosd/src/state.rs).
use nvnmos.Common.{
  ==_iff, ==_refl, nat_Eq, text_Eq, Text, ℕ, ◌+◌, ◌≡◌, refl, Bool, false, none, some, arith,
}
use nvnmos.HashMap
use nvnmos.HashMap.{get-remove, get-insert, HashMap}
use nvnmos.Wrapper.{NodeConfig}
use nvnmos.Daemon.Types.{side_Eq, name_key_Eq, seed_key_Eq, NodeEntry}
use nvnmos.Daemon.State.{session_handle, State}
use nvnmos.Daemon.Status.{Result, ok}
use nvnmos.Daemon.Ports.{PortRange}
use nvnmos.Daemon.Sessions.{
  fresh_session, open_on, attach, reserve, prepare_open_session, abort_pending_node, CreateNodePrep,
  OpenSessionPlan, create,
}
use nvnmos.Daemon.Sessions.Cases.{prepare_open_session_cases}
use nvnmos.Daemon.Closing.{destroys, detach, closed, close_outcome, close_ffi, close_session}
use nvnmos.Daemon.Steps.{System}
use nvnmos.Daemon.Steps.Valid.{IsValid}
use nvnmos.Daemon.Promises.Frame.{
  closed-sessions, closed-nodes, closed-http_ports, closed-pending_nodes,
}

-- The lookups of seeds, ports, Nodes and sessions are the same.
pub record Restored (s t : State) : Type 0 where
  pub pending_nodes :
      (seed : Text) → HashMap.get t.pending_nodes seed ≡ HashMap.get s.pending_nodes seed
  pub http_ports : (port : ℕ) → HashMap.get t.http_ports port ≡ HashMap.get s.http_ports port
  pub nodes : (seed : Text) → HashMap.get t.nodes seed ≡ HashMap.get s.nodes seed
  pub sessions : (handle : Text) → HashMap.get t.sessions handle ≡ HashMap.get s.sessions handle

abort_pending_node-reserve :
    (s : State) (config : NodeConfig) (port : ℕ)
    → HashMap.contains_key s.pending_nodes config.seed ≡ false
    → HashMap.get s.http_ports port ≡ none
    → Restored s (abort_pending_node (reserve s config port).0 config.seed port)
unfolding abort_pending_node reserve
abort_pending_node-reserve s config port idle free = record {
  pending_nodes = λ seed. simp get-remove (
      ground
        (arith, idle, get-insert s.pending_nodes config.seed seed tt, ==_iff config.seed seed));
  http_ports = λ p. ground (
    arith,
    free,
    ==_iff port p,
    ==_refl config.seed,
    ==_refl port,
    get-insert s.http_ports port port config.seed,
    get-remove (HashMap.insert s.http_ports port config.seed) port p,
    get-insert s.http_ports port p config.seed,
  );
  nodes = λ seed. refl;
  sessions = λ handle. refl;
}

-- A build that fails gives back its seed and its port: after the abort, every lookup of a seed, a
-- port, a Node or a session answers as before the request.
pub abort_pending_node-prepare_open_session :
    (bindable : ℕ → Bool) (s : State) (config : NodeConfig) (range : PortRange)
    (prep : CreateNodePrep)
    → (prepare_open_session bindable s config range).1 ≡ ok (create prep)
    → Restored s (
        abort_pending_node
          (prepare_open_session bindable s config range).0
          prep.seed
          prep.http_port)
abort_pending_node-prepare_open_session bindable s config range prep =
    prepare_open_session_cases bindable s config range
      (λ r. r.1 ≡ ok (create prep) → Restored s (abort_pending_node r.0 prep.seed prep.http_port))
      (λ c h. absurd (ground arith)) (λ n node h. absurd (ground arith))
      (λ p b h.
        let q = reserved p h in
        rw (q.0, q.1) (abort_pending_node-reserve s config p b.not_pending b.free.0.0))
  where
    reserved :
        (p : ℕ)
        → ◌≡◌ {A = Result OpenSessionPlan} (ok (create (reserve s config p).1)) (ok (create prep))
        → (prep.seed ≡ config.seed) × (prep.http_port ≡ p)
    reserved p h = unfold reserve in (cc, cc)

module _ (y : System) (seed : Text) (n : NodeEntry) (v : IsValid y)
    (node : HashMap.get y.state.nodes seed ≡ some n) where
  abbrev handle : Text
  handle = session_handle y.state.next_session_id

  abbrev more : NodeEntry
  more = record n { attached_sessions = n.attached_sessions + 1 }

  stays : destroys more ≡ false
  stays = ground (arith, v.core.alive seed n, ==_iff n.attached_sessions 0)

  closed_again : close_session (attach y.state seed n).0 handle ≡ (
    closed (attach y.state seed n).0 handle (fresh_session seed) more,
    ok (
      close_outcome (fresh_session seed) more,
      close_ffi (attach y.state seed n).0 handle (fresh_session seed) more,
    ),
  )
  unfolding close_session
  closed_again = rw (known, close_session) (rw (there, close_session) refl)
    where
      known : HashMap.get (attach y.state seed n).0.sessions handle ≡ some (fresh_session seed)
      known =
          unfold attach open_on in
          ground
            (arith, get-insert y.state.sessions handle handle (fresh_session seed), ==_refl handle)

      there : HashMap.get (attach y.state seed n).0.nodes seed ≡ some more
      there =
          unfold attach open_on in
          ground (arith, get-insert y.state.nodes seed seed more, ==_refl seed)

  -- On a valid system, closing the session that an attach opened gives the Node back as it was, and
  -- leaves every other Node, session, seed and port alone.
  pub close_session-attach :
      Restored y.state (close_session (attach y.state seed n).0 (attach y.state seed n).1.handle).0
  unfolding attach open_on detach
  close_session-attach = rw closed_again (record {
    pending_nodes = λ sd. rw closed-pending_nodes refl;
    http_ports = λ p. rw (closed-http_ports, stays, detach) refl;
    nodes = λ sd.
        rw (closed-nodes, stays, detach) (simp get-insert (ground (arith, node, ==_iff seed sd)));
    sessions = λ h. rw closed-sessions (
        simp (get-remove, get-insert)
          (ground (arith, v.core.fresh y.state.next_session_id, ==_iff handle h)));
  })
