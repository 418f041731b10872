-- ===== src/Daemon/Nodes/Close.antt =====
-- Closing a session and removing a Node keep the bookkeeping consistent.
use nvnmos.Common.{
  ==_iff, ==_refl, nat_Eq, text_Eq, Text, ◌+◌, ◌≡◌, ◌≢◌, inl, inr, true, false, some, arith,
  Bool-cases, Option-cases,
}
use nvnmos.HashMap
use nvnmos.HashMap.{get-remove, get-insert, count-remove, count-insert, HashMap}
use nvnmos.Daemon.Types.{side_Eq, name_key_Eq, seed_key_Eq, NodeEntry, SessionEntry}
use nvnmos.Daemon.State.{session_handle, State}
use nvnmos.Daemon.Sessions.{discard_node, remove_node}
use nvnmos.Daemon.Sessions.Cases.{remove_node_cases}
use nvnmos.Daemon.Closing.{forget_session, destroys, detach, closed, close_session}
use nvnmos.Daemon.Nodes.{Builds, on, IsConsistent}
use nvnmos.Daemon.Nodes.Frame.{SameCore-IsConsistent, undetached, undetached-SameCore, SameCore}

module _ (s t : State) (builds : Builds) (handle : Text) (session : SessionEntry) (n : NodeEntry)
    (c : IsConsistent s builds) (known : HashMap.get s.sessions handle ≡ some session)
    (node : HashMap.get s.nodes session.node_seed ≡ some n)
    (f : SameCore (forget_session s handle) t) where
  one_less :
      HashMap.count (on session.node_seed) (HashMap.remove s.sessions handle) + 1
      ≡ n.attached_sessions
  one_less = ground (
    arith,
    known,
    c.attached session.node_seed n,
    ==_refl session.node_seed,
    count-remove (on session.node_seed) s.sessions handle,
  )

  -- The session that closes was the last one of its Node.
  none_left :
      destroys n ≡ true
      → (other : Text) (e : SessionEntry)
      → HashMap.get (HashMap.remove s.sessions handle) other ≡ some e
      → e.node_seed ≢ session.node_seed
  none_left d other e held = ground (
    arith,
    one_less,
    ==_iff e.node_seed session.node_seed,
    count-remove (on session.node_seed) (HashMap.remove s.sessions handle) other,
  )

  detach_destroying : destroys n ≡ true → IsConsistent (detach t session.node_seed n) builds
  unfolding detach forget_session
  detach_destroying d =
      rw (d, f.nodes, f.sessions, f.http_ports, f.pending_nodes, f.next_session_id, detach)
        (record {
          session_node = λ other e held. simp get-remove (
              ground (
                arith,
                c.session_node other e,
                get-remove s.sessions handle other,
                none_left d other e held,
                ==_iff session.node_seed e.node_seed,
              ));
          attached = λ sd m. simp get-remove (
              ground (
                arith,
                c.attached sd m,
                known,
                ==_iff session.node_seed sd,
                count-remove (on sd) s.sessions handle,
              ));
          alive = λ sd m. simp get-remove (ground (arith, c.alive sd m));
          node_port = λ sd m. simp get-remove (
              ground (
                arith,
                c.node_port sd m,
                c.node_port session.node_seed n,
                ==_iff n.http_port m.http_port,
                ==_iff session.node_seed sd,
                ==_refl session.node_seed,
              ));
          build_pending = c.build_pending;
          build_absent = λ r b. simp get-remove (ground (arith, c.build_absent r b));
          build_port = λ r b. simp get-remove (
              ground (
                arith,
                c.build_port r b,
                c.build_absent r b,
                c.node_port session.node_seed n,
                ==_iff n.http_port b.http_port,
              ));
          build_once = c.build_once;
          fresh = λ k. simp get-remove (ground (arith, c.fresh k));
        })

  detach_keeping : destroys n ≡ false → IsConsistent (detach t session.node_seed n) builds
  unfolding detach forget_session
  detach_keeping d =
      rw (d, f.nodes, f.sessions, f.http_ports, f.pending_nodes, f.next_session_id, detach)
        (record {
          session_node = λ other e.
              simp (get-remove, get-insert)
                (ground (arith, c.session_node other e, ==_iff session.node_seed e.node_seed));
          attached = λ sd m. simp get-insert (
              ground (
                arith,
                c.attached sd m,
                known,
                one_less,
                ==_iff session.node_seed sd,
                count-remove (on sd) s.sessions handle,
              ));
          alive = λ sd m.
              simp get-insert (ground (arith, c.alive sd m, one_less, ==_iff session.node_seed sd));
          node_port = λ sd m. simp get-insert (
              ground (
                arith,
                c.node_port sd m,
                c.node_port session.node_seed n,
                ==_iff session.node_seed sd,
              ));
          build_pending = c.build_pending;
          build_absent = λ r b.
              simp get-insert (ground (arith, c.build_absent r b, ==_iff session.node_seed b.seed));
          build_port = c.build_port;
          build_once = c.build_once;
          fresh = λ k. simp get-remove (ground (arith, c.fresh k));
        })

  detach-IsConsistent : IsConsistent (detach t session.node_seed n) builds
  detach-IsConsistent = elim (Bool-cases (destroys n)) [
    | inl d ↦ detach_destroying d
    | inr d ↦ detach_keeping d
  ]

pub closed-IsConsistent :
    (s : State) (builds : Builds) (handle : Text) (session : SessionEntry) (n : NodeEntry)
    → IsConsistent s builds
    → HashMap.get s.sessions handle ≡ some session
    → HashMap.get s.nodes session.node_seed ≡ some n
    → IsConsistent (closed s handle session n) builds
unfolding closed
closed-IsConsistent s builds handle session n c known node =
    detach-IsConsistent s (undetached s handle session) builds handle session n c known node
      (undetached-SameCore s handle session)

pub close_session-IsConsistent :
    (s : State) (builds : Builds) (handle : Text)
    → IsConsistent s builds
    → IsConsistent (close_session s handle).0 builds
unfolding close_session
close_session-IsConsistent s builds handle c = elim (Option-cases (HashMap.get s.sessions handle)) [
  | inl none_known ↦ rw (none_known, close_session) c
  | inr (session, known) ↦ elim (Option-cases (HashMap.get s.nodes session.node_seed)) [
    | inl missing ↦ absurd (ground (arith, c.session_node handle session known))
    | inr (n, node) ↦
        rw (known, close_session)
          (rw (node, close_session) (closed-IsConsistent s builds handle session n c known node))
  ]
]

discard_node-IsConsistent :
    (s : State) (builds : Builds) (seed : Text) (n : NodeEntry)
    → IsConsistent s builds
    → HashMap.get s.nodes seed ≡ some n
    → n.attached_sessions ≡ 0
    → IsConsistent (discard_node s seed n) builds
unfolding discard_node
discard_node-IsConsistent s builds seed n c node idle = record {
  session_node = λ other e held. simp get-remove (
      ground (
        arith,
        c.session_node other e held,
        c.attached seed n,
        ==_iff seed e.node_seed,
        ==_iff e.node_seed seed,
        count-remove (on seed) s.sessions other,
        held,
      ));
  attached = λ sd m. simp get-remove (ground (arith, c.attached sd m));
  alive = λ sd m. simp get-remove (ground (arith, c.alive sd m));
  node_port = λ sd m. simp get-remove (
      ground (
        arith,
        c.node_port sd m,
        c.node_port seed n,
        ==_iff n.http_port m.http_port,
        ==_iff seed sd,
        ==_refl seed,
      ));
  build_pending = c.build_pending;
  build_absent = λ r b. simp get-remove (ground (arith, c.build_absent r b));
  build_port = λ r b. simp get-remove (
      ground (
        arith,
        c.build_port r b,
        c.build_absent r b,
        c.node_port seed n,
        ==_iff n.http_port b.http_port,
      ));
  build_once = c.build_once;
  fresh = c.fresh;
}

pub remove_node-IsConsistent :
    (s : State) (builds : Builds) (seed : Text)
    → IsConsistent s builds
    → IsConsistent (remove_node s seed).0 builds
remove_node-IsConsistent s builds seed c =
    remove_node_cases s seed (λ r. IsConsistent r.0 builds) (λ _. c)
      (λ n node _ idle. discard_node-IsConsistent s builds seed n c node idle)

-- A session whose seed stays can change in all else.
pub touch_session-IsConsistent :
    (s t : State) (builds : Builds) (handle : Text) (e e' : SessionEntry)
    → IsConsistent s builds
    → HashMap.get s.sessions handle ≡ some e
    → e'.node_seed ≡ e.node_seed
    → SameCore (record s { sessions = HashMap.insert s.sessions handle e' }) t
    → IsConsistent t builds
touch_session-IsConsistent s t builds handle e e' c known kept f =
    SameCore-IsConsistent (record s { sessions = HashMap.insert s.sessions handle e' }) t builds f
      (record {
        session_node = λ other x.
            simp get-insert (ground (arith, c.session_node other x, c.session_node handle e));
        attached = λ sd m.
            ground (arith, c.attached sd m, known, count-insert (on sd) s.sessions handle e');
        alive = c.alive;
        node_port = c.node_port;
        build_pending = c.build_pending;
        build_absent = c.build_absent;
        build_port = c.build_port;
        build_once = c.build_once;
        fresh = λ k. simp get-insert (ground (arith, c.fresh k, ==_iff handle (session_handle k)));
      })
