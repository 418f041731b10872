-- ===== src/Daemon/Nodes/Attach.antt =====
-- Opening a session on a Node that is there keeps the bookkeeping consistent.
use nvnmos.Common.{
  ==_iff, ==_refl, nat_Eq, text_Eq, Text, codes, decimal_injective, append_cancel, ℕ, ◌+◌, ◌^◌, ◌<◌,
  ◌≡◌, none, some, arith,
}
use nvnmos.HashMap
use nvnmos.HashMap.{get-insert, count-insert, HashMap}
use nvnmos.Daemon.Types.{side_Eq, name_key_Eq, seed_key_Eq, NodeEntry}
use nvnmos.Daemon.State.{session_handle, State}
use nvnmos.Daemon.Sessions.{fresh_session, attach}
use nvnmos.Daemon.Nodes.{Builds, on, IsConsistent}

pub session_handle_injective : (n m : ℕ) → session_handle n ≡ session_handle m → n ≡ m
unfolding session_handle
session_handle_injective n m e = decimal_injective n m (append_cancel (codes "sess-") _ _ e)

pub attach-IsConsistent :
    (s : State) (builds : Builds) (seed : Text) (n : NodeEntry)
    → IsConsistent s builds
    → HashMap.get s.nodes seed ≡ some n
    → s.next_session_id + 1 < 2 ^ 64
    → IsConsistent (attach s seed n).0 builds
unfolding attach
attach-IsConsistent s builds seed n c h bound = record {
  session_node = λ handle e.
      simp get-insert (ground (arith, c.session_node handle e, ==_iff seed e.node_seed));
  attached = λ sd m. simp get-insert (
      ground (
        arith,
        c.attached seed n,
        c.attached sd m,
        ==_iff seed sd,
        ==_refl seed,
        new_handle,
        count-insert (on sd) s.sessions (session_handle s.next_session_id) (fresh_session seed),
      ));
  alive = λ sd m. simp get-insert (ground (arith, c.alive sd m, ==_iff seed sd));
  node_port = λ sd m.
      simp get-insert (ground (arith, c.node_port sd m, c.node_port seed n, ==_iff seed sd));
  build_pending = c.build_pending;
  build_absent =
      λ rpc b. simp get-insert (ground (arith, c.build_absent rpc b, ==_iff seed b.seed));
  build_port = c.build_port;
  build_once = c.build_once;
  fresh = λ k. simp get-insert (
      ground (
        arith,
        c.fresh k,
        ==_iff (session_handle s.next_session_id) (session_handle k),
        session_handle_injective s.next_session_id k,
      ));
}
  where
    new_handle : HashMap.get s.sessions (session_handle s.next_session_id) ≡ none
    new_handle = c.fresh s.next_session_id (omega arith)
