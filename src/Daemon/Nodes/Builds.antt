-- ===== src/Daemon/Nodes/Builds.antt =====
-- A build in flight, from its reservation to its commit or abort, keeps the bookkeeping consistent.
use nvnmos.Common.{
  ==_iff, ==_refl, nat_Eq, text_Eq, Text, ℕ, ◌+◌, ◌^◌, ◌<◌, ◌≡◌, false, none, some, arith,
}
use nvnmos.HashMap
use nvnmos.HashMap.{get-remove, get-insert, count-insert, count_zero, HashMap}
use nvnmos.Wrapper.{NodeConfig}
use nvnmos.Daemon.Types.{side_Eq, name_key_Eq, seed_key_Eq, persistent}
use nvnmos.Daemon.State.{session_handle, State}
use nvnmos.Daemon.Sessions.{
  fresh_session, reserve, commit_node, commit_open_session, abort_pending_node, CreateNodeReady,
}
use nvnmos.Daemon.Nodes.{Builds, on, Build, IsConsistent}
use nvnmos.Daemon.Nodes.Attach.{session_handle_injective}

abbrev pub begun : Builds → ℕ → Text → ℕ → Builds
begun builds rpc seed port = HashMap.insert builds rpc (record { seed = seed; http_port = port })

-- No session is attached to a seed that has no Node.
pub count_absent :
    (s : State) (builds : Builds) (seed : Text)
    → IsConsistent s builds
    → HashMap.get s.nodes seed ≡ none
    → HashMap.count (on seed) s.sessions ≡ 0
count_absent s builds seed c h =
    count_zero (on seed) s.sessions
      λ handle e q. ground (arith, c.session_node handle e, ==_iff e.node_seed seed)

pub reserve-IsConsistent :
    (s : State) (builds : Builds) (rpc : ℕ) (config : NodeConfig) (port : ℕ)
    → IsConsistent s builds
    → HashMap.get builds rpc ≡ none
    → HashMap.get s.nodes config.seed ≡ none
    → HashMap.contains_key s.pending_nodes config.seed ≡ false
    → HashMap.get s.http_ports port ≡ none
    → IsConsistent (reserve s config port).0 (begun builds rpc config.seed port)
unfolding reserve
reserve-IsConsistent s builds rpc config port c new absent idle unused = record {
  session_node = c.session_node;
  attached = c.attached;
  alive = c.alive;
  node_port = λ sd m. simp get-insert (ground (arith, c.node_port sd m, ==_iff port m.http_port));
  build_pending = λ r b. simp get-insert (
      ground
        (arith, c.build_pending r b, ==_iff rpc r, ==_iff config.seed b.seed, ==_refl config.seed));
  build_absent = λ r b. simp get-insert (ground (arith, c.build_absent r b, ==_iff rpc r));
  build_port = λ r b.
      simp get-insert
        (ground (arith, c.build_port r b, ==_iff rpc r, ==_iff port b.http_port, ==_refl port));
  build_once = λ r r' b b'. simp get-insert (
      ground (
        arith,
        c.build_once r r' b b',
        ==_iff rpc r,
        ==_iff rpc r',
        c.build_pending r b,
        c.build_pending r' b',
      ));
  fresh = c.fresh;
}

-- A Node made by a build whose seed has no sessions yet.
pub commit_node-IsConsistent :
    (s : State) (builds : Builds) (rpc : ℕ) (b : Build) (ready : CreateNodeReady)
    → IsConsistent s builds
    → HashMap.get builds rpc ≡ some b
    → ready.seed ≡ b.seed
    → ready.http_port ≡ b.http_port
    → IsConsistent (commit_node s ready persistent 0) (HashMap.remove builds rpc)
unfolding commit_node
commit_node-IsConsistent s builds rpc b ready c held seed_eq port_eq = record {
  session_node = λ handle e. simp get-insert (ground (arith, c.session_node handle e));
  attached =
      λ sd m. simp get-insert (ground (arith, c.attached sd m, ==_iff ready.seed sd, none_there));
  alive = λ sd m. simp get-insert (ground (arith, c.alive sd m));
  node_port = λ sd m.
      simp get-insert
        (ground (arith, c.node_port sd m, ==_iff ready.seed sd, c.build_port rpc b held));
  build_pending = λ r b'. simp get-remove (
      ground (
        arith,
        c.build_pending r b',
        ==_iff rpc r,
        ==_iff ready.seed b'.seed,
        c.build_once rpc r b b',
      ));
  build_absent = λ r b'.
      simp (get-insert, get-remove)
        (ground (
          arith,
          c.build_absent r b',
          ==_iff rpc r,
          ==_iff ready.seed b'.seed,
          c.build_once rpc r b b',
        ));
  build_port = λ r b'. simp get-remove (ground (arith, c.build_port r b'));
  build_once = λ r r' b1 b2. simp get-remove (ground (arith, c.build_once r r' b1 b2));
  fresh = c.fresh;
}
  where
    none_there : HashMap.count (on ready.seed) s.sessions ≡ 0
    none_there = rw seed_eq (count_absent s builds b.seed c (c.build_absent rpc b held))

pub abort_pending_node-IsConsistent :
    (s : State) (builds : Builds) (rpc : ℕ) (b : Build)
    → IsConsistent s builds
    → HashMap.get builds rpc ≡ some b
    → IsConsistent (abort_pending_node s b.seed b.http_port) (HashMap.remove builds rpc)
unfolding abort_pending_node
abort_pending_node-IsConsistent s builds rpc b c held = record {
  session_node = c.session_node;
  attached = c.attached;
  alive = c.alive;
  node_port = λ sd m.
      rw (mine, ==_refl b.seed)
        (simp get-remove (
          ground (
            arith,
            c.node_port sd m,
            ==_iff b.http_port m.http_port,
            mine,
            c.build_absent rpc b held,
          )));
  build_pending = λ r b'. simp get-remove (
      ground (
        arith,
        c.build_pending r b',
        ==_iff rpc r,
        ==_iff b.seed b'.seed,
        c.build_once rpc r b b',
      ));
  build_absent = λ r b'. simp get-remove (ground (arith, c.build_absent r b'));
  build_port = λ r b'.
      rw (mine, ==_refl b.seed)
        (simp get-remove (
          ground (
            arith,
            c.build_port r b',
            ==_iff rpc r,
            ==_iff b.http_port b'.http_port,
            mine,
            c.build_once rpc r b b',
          )));
  build_once = λ r r' b1 b2. simp get-remove (ground (arith, c.build_once r r' b1 b2));
  fresh = c.fresh;
}
  where
    mine : HashMap.get s.http_ports b.http_port ≡ some b.seed
    mine = c.build_port rpc b held

pub commit_open_session-IsConsistent :
    (s : State) (builds : Builds) (rpc : ℕ) (b : Build) (ready : CreateNodeReady)
    → IsConsistent s builds
    → HashMap.get builds rpc ≡ some b
    → ready.seed ≡ b.seed
    → ready.http_port ≡ b.http_port
    → s.next_session_id + 1 < 2 ^ 64
    → IsConsistent (commit_open_session s ready).0 (HashMap.remove builds rpc)
unfolding commit_open_session
commit_open_session-IsConsistent s builds rpc b ready c held seed_eq port_eq bound = record {
  session_node = λ handle e.
      simp get-insert (ground (arith, c.session_node handle e, ==_iff ready.seed e.node_seed));
  attached = λ sd m. simp get-insert (
      ground (
        arith,
        c.attached sd m,
        ==_iff ready.seed sd,
        ==_refl ready.seed,
        none_there,
        new_handle,
        count-insert (on sd) s.sessions (session_handle s.next_session_id)
            (fresh_session ready.seed),
      ));
  alive = λ sd m. simp get-insert (ground (arith, c.alive sd m));
  node_port = λ sd m.
      simp get-insert
        (ground (arith, c.node_port sd m, ==_iff ready.seed sd, c.build_port rpc b held));
  build_pending = λ r b'. simp get-remove (
      ground (
        arith,
        c.build_pending r b',
        ==_iff rpc r,
        ==_iff ready.seed b'.seed,
        c.build_once rpc r b b',
      ));
  build_absent = λ r b'.
      simp (get-insert, get-remove)
        (ground (
          arith,
          c.build_absent r b',
          ==_iff rpc r,
          ==_iff ready.seed b'.seed,
          c.build_once rpc r b b',
        ));
  build_port = λ r b'. simp get-remove (ground (arith, c.build_port r b'));
  build_once = λ r r' b1 b2. simp get-remove (ground (arith, c.build_once r r' b1 b2));
  fresh = λ k. simp get-insert (
      ground (
        arith,
        c.fresh k,
        ==_iff (session_handle s.next_session_id) (session_handle k),
        session_handle_injective s.next_session_id k,
      ));
}
  where
    none_there : HashMap.count (on ready.seed) s.sessions ≡ 0
    none_there = rw seed_eq (count_absent s builds b.seed c (c.build_absent rpc b held))

    new_handle : HashMap.get s.sessions (session_handle s.next_session_id) ≡ none
    new_handle = c.fresh s.next_session_id (omega arith)
