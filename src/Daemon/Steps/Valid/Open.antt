-- ===== src/Daemon/Steps/Valid/Open.antt =====
-- Opening sessions and building Nodes keep a system valid, and so does what moves no bookkeeping.
use nvnmos.Common.{
  ==_iff, nat_Eq, text_Eq, Text, ℕ, ◌+◌, ◌^◌, ◌<◌, ◌≡◌, refl, false, none, some, arith,
}
use nvnmos.HashMap
use nvnmos.HashMap.{get-insert, HashMap}
use nvnmos.Wrapper.{NodeConfig}
use nvnmos.Daemon.Types.{side_Eq, name_key_Eq, seed_key_Eq, NodeEntry, session_refcounted}
use nvnmos.Daemon.State.{session_handle, State}
use nvnmos.Daemon.Sessions.{
  open_on, attach, reserve, commit_node, commit_open_session, abort_pending_node, commit_add_node,
}
use nvnmos.Daemon.Resources.{AddResourcePrep}
use nvnmos.Daemon.Nodes.{Builds, Build, IsConsistent}
use nvnmos.Daemon.Nodes.Attach.{attach-IsConsistent}
use nvnmos.Daemon.Nodes.Builds.{
  begun, reserve-IsConsistent, commit_node-IsConsistent, abort_pending_node-IsConsistent,
  commit_open_session-IsConsistent,
}
use nvnmos.Daemon.Nodes.Frame.{SameCore-IsConsistent}
use nvnmos.Daemon.Index.{IsIndexed}
use nvnmos.Daemon.Unmoved.{Unmoved}
use nvnmos.Daemon.Steps.{built, System}
use nvnmos.Daemon.Steps.Valid.{IsTracked, IsValid}

pub Unmoved-IsValid :
    (y : System) (t : State) → Unmoved y.state t → IsValid y → IsValid (record y { state = t })
Unmoved-IsValid y t u v = record {
  core =
      SameCore-IsConsistent y.state t y.builds
        (record {
          nodes = u.nodes;
          pending_nodes = u.pending_nodes;
          sessions = u.sessions;
          http_ports = u.http_ports;
          next_session_id = u.next_session_id;
        })
        v.core;
  index = record {
    named = rw (u.by_name, u.resources) v.index.named;
    owner = rw (u.resources, u.sessions) v.index.owner;
    owned = rw (u.resources, u.sessions) v.index.owned;
    fresh = rw (u.resources, u.next_resource_id) v.index.fresh;
  };
  tracked = record {
    same_seed = rw u.sessions v.tracked.same_seed;
    past = rw u.next_session_id v.tracked.past;
  };
}

-- A new session owns nothing.
open_on-IsIndexed :
    (s : State) (seed : Text)
    → IsIndexed s
    → HashMap.get s.sessions (session_handle s.next_session_id) ≡ none
    → IsIndexed (open_on s seed)
unfolding open_on
open_on-IsIndexed s seed x new_handle = record {
  named = x.named;
  owner = λ id r. simp get-insert (
      ground (
        arith,
        x.owner id r,
        new_handle,
        ==_iff (session_handle s.next_session_id) r.session_handle,
      ));
  owned = λ h e id.
      simp get-insert
        (ground (arith, x.owned h e id, HashMap.get-empty {K = Text} {V = Unit {0}} id));
  fresh = x.fresh;
}

open_on-IsTracked :
    (s : State) (adds : HashMap ℕ AddResourcePrep) (seed : Text)
    → IsTracked s adds
    → s.next_session_id + 1 < 2 ^ 64
    → IsTracked (open_on s seed) adds
unfolding open_on
open_on-IsTracked s adds seed t bound = record {
  same_seed = λ rpc a e. simp get-insert (
      ground (
        arith,
        t.same_seed rpc a e,
        t.past rpc a s.next_session_id,
        ==_iff (session_handle s.next_session_id) a.session_handle,
      ));
  past = λ rpc a n. ground (arith, t.past rpc a n);
}

new_handle :
    (s : State) (b : Builds)
    → IsConsistent s b
    → HashMap.get s.sessions (session_handle s.next_session_id) ≡ none
new_handle s b c = c.fresh s.next_session_id (omega arith)

pub reindex :
    (s t : State)
    → t.sessions ≡ s.sessions
    → t.resources ≡ s.resources
    → t.by_name ≡ s.by_name
    → t.next_resource_id ≡ s.next_resource_id
    → IsIndexed s
    → IsIndexed t
reindex s t sessions resources by_name counter x = record {
  named = rw (by_name, resources) x.named;
  owner = rw (resources, sessions) x.owner;
  owned = rw (resources, sessions) x.owned;
  fresh = rw (resources, counter) x.fresh;
}

pub retrack :
    (s t : State) (adds : HashMap ℕ AddResourcePrep)
    → t.sessions ≡ s.sessions
    → t.next_session_id ≡ s.next_session_id
    → IsTracked s adds
    → IsTracked t adds
retrack s t adds sessions counter x = record {
  same_seed = rw sessions x.same_seed;
  past = rw counter x.past;
}

pub attach-IsValid :
    (y : System) (seed : Text) (n : NodeEntry)
    → IsValid y
    → HashMap.get y.state.nodes seed ≡ some n
    → y.state.next_session_id + 1 < 2 ^ 64
    → IsValid (record y { state = (attach y.state seed n).0 })
unfolding attach
attach-IsValid y seed n v node bound =
    let s = y.state in
    let more = record s {
      nodes =
          HashMap.insert s.nodes seed (record n { attached_sessions = n.attached_sessions + 1 });
    } in
    record {
      core = attach-IsConsistent s y.builds seed n v.core node bound;
      index =
          open_on-IsIndexed more seed (reindex s more refl refl refl refl v.index)
            (new_handle s y.builds v.core);
      tracked =
          open_on-IsTracked more y.adds seed (retrack s more y.adds refl refl v.tracked) bound;
    }

pub reserve-IsValid :
    (y : System) (rpc : ℕ) (config : NodeConfig) (port : ℕ)
    → IsValid y
    → HashMap.get y.builds rpc ≡ none
    → HashMap.get y.state.nodes config.seed ≡ none
    → HashMap.contains_key y.state.pending_nodes config.seed ≡ false
    → HashMap.get y.state.http_ports port ≡ none
    → IsValid (record y {
      state = (reserve y.state config port).0;
      builds = begun y.builds rpc config.seed port;
    })
unfolding reserve
reserve-IsValid y rpc config port v new_rpc a b p = record {
  core = reserve-IsConsistent y.state y.builds rpc config port v.core new_rpc a b p;
  index = reindex y.state _ refl refl refl refl v.index;
  tracked = retrack y.state _ y.adds refl refl v.tracked;
}

module _ (y : System) (rpc : ℕ) (b : Build) (v : IsValid y)
    (held : HashMap.get y.builds rpc ≡ some b) (server : ℕ) (node_id device_id : Text) where
  pub commit_add_node-IsValid : IsValid (record y {
    state = (commit_add_node y.state (built b server node_id device_id)).0;
    builds = HashMap.remove y.builds rpc;
  })
  unfolding commit_add_node
  commit_add_node-IsValid = record {
    core =
        commit_node-IsConsistent y.state y.builds rpc b (built b server node_id device_id) v.core
          held refl refl;
    index = reindex y.state _ refl refl refl refl v.index;
    tracked = retrack y.state _ y.adds refl refl v.tracked;
  }

  pub commit_open_session-IsValid :
      y.state.next_session_id + 1 < 2 ^ 64
      → IsValid (record y {
        state = (commit_open_session y.state (built b server node_id device_id)).0;
        builds = HashMap.remove y.builds rpc;
      })
  unfolding commit_open_session
  commit_open_session-IsValid bound =
      let s = y.state in
      let more = commit_node s (built b server node_id device_id) session_refcounted 1 in
      record {
        core =
            commit_open_session-IsConsistent s y.builds rpc b (built b server node_id device_id)
              v.core held refl refl bound;
        index =
            open_on-IsIndexed more b.seed (reindex s more refl refl refl refl v.index)
              (new_handle s y.builds v.core);
        tracked =
            open_on-IsTracked more y.adds b.seed (retrack s more y.adds refl refl v.tracked) bound;
      }

  pub abort_pending_node-IsValid : IsValid (record y {
    state = abort_pending_node y.state b.seed b.http_port;
    builds = HashMap.remove y.builds rpc;
  })
  abort_pending_node-IsValid = record {
    core = abort_pending_node-IsConsistent y.state y.builds rpc b v.core held;
    index = unfold abort_pending_node in reindex y.state _ refl refl refl refl v.index;
    tracked = unfold abort_pending_node in retrack y.state _ y.adds refl refl v.tracked;
  }
