-- ===== src/Daemon/Nodes/Frame.antt =====
-- What the bookkeeping of Nodes rests on, and the parts of `close_session` that leave it alone.
use nvnmos.Common.{nat_Eq, text_Eq, Text, ◌≡◌, refl, ◌∙◌, inl, inr, List, [], ◌∷◌, Option-cases}
use nvnmos.HashMap
use nvnmos.HashMap.{HashMap}
use nvnmos.Daemon.Types.{
  side_Eq, name_key_Eq, seed_key_Eq, ResourceEntry, SessionEntry, ChannelMappingEntry,
}
use nvnmos.Daemon.State.{State}
use nvnmos.Daemon.Closing.{
  drop_resource, drop_resources, elements, drop_channelmapping, drop_channelmappings,
  forget_session, forget_channelmapping_stream,
}
use nvnmos.Daemon.Nodes.{Builds, IsConsistent}

-- The second state has the Nodes, builds, sessions and ports of the first.
pub record SameCore (s t : State) : Type 0 where
  pub nodes : t.nodes ≡ s.nodes
  pub pending_nodes : t.pending_nodes ≡ s.pending_nodes
  pub sessions : t.sessions ≡ s.sessions
  pub http_ports : t.http_ports ≡ s.http_ports
  pub next_session_id : t.next_session_id ≡ s.next_session_id

pub SameCore-IsConsistent :
    (s t : State) (builds : Builds) → SameCore s t → IsConsistent s builds → IsConsistent t builds
SameCore-IsConsistent s t builds f c = record {
  session_node = rw (f.nodes, f.sessions) c.session_node;
  attached = rw (f.nodes, f.sessions) c.attached;
  alive = rw f.nodes c.alive;
  node_port = rw (f.nodes, f.http_ports) c.node_port;
  build_pending = rw f.pending_nodes c.build_pending;
  build_absent = rw f.nodes c.build_absent;
  build_port = rw f.http_ports c.build_port;
  build_once = c.build_once;
  fresh = rw (f.sessions, f.next_session_id) c.fresh;
}

pub SameCore-trans : (s t u : State) → SameCore s t → SameCore t u → SameCore s u
SameCore-trans s t u f g = record {
  nodes = g.nodes ∙ f.nodes;
  pending_nodes = g.pending_nodes ∙ f.pending_nodes;
  sessions = g.sessions ∙ f.sessions;
  http_ports = g.http_ports ∙ f.http_ports;
  next_session_id = g.next_session_id ∙ f.next_session_id;
}

same : (s : State) → SameCore s s
same s = record {
  nodes = refl;
  pending_nodes = refl;
  sessions = refl;
  http_ports = refl;
  next_session_id = refl;
}

drop_resource-SameCore :
    (s : State) (handle : Text) (resource : ResourceEntry)
    → SameCore s (drop_resource s handle resource)
unfolding drop_resource
drop_resource-SameCore s handle resource = record {
  nodes = refl;
  pending_nodes = refl;
  sessions = refl;
  http_ports = refl;
  next_session_id = refl;
}

pub drop_resources-SameCore :
    (s : State) (handles : List Text) → SameCore s (drop_resources s handles).0
unfolding drop_resources
drop_resources-SameCore s [] = same s
drop_resources-SameCore s (h ∷ hs) = elim (Option-cases (HashMap.get s.resources h)) [
  | inl e ↦ rw (e, drop_resources) (drop_resources-SameCore s hs)
  | inr (r, e) ↦
      rw (e, drop_resources)
        (SameCore-trans s (drop_resource s h r) _ (drop_resource-SameCore s h r)
          (drop_resources-SameCore (drop_resource s h r) hs))
]

drop_channelmapping-SameCore :
    (s : State) (handle : Text) (entry : ChannelMappingEntry)
    → SameCore s (drop_channelmapping s handle entry)
unfolding drop_channelmapping
drop_channelmapping-SameCore s handle entry = record {
  nodes = refl;
  pending_nodes = refl;
  sessions = refl;
  http_ports = refl;
  next_session_id = refl;
}

pub drop_channelmappings-SameCore :
    (s : State) (handles : List Text) → SameCore s (drop_channelmappings s handles).0
unfolding drop_channelmappings
drop_channelmappings-SameCore s [] = same s
drop_channelmappings-SameCore s (h ∷ hs) = elim (Option-cases (HashMap.get s.channelmappings h)) [
  | inl e ↦ rw (e, drop_channelmappings) (drop_channelmappings-SameCore s hs)
  | inr (m, e) ↦
      rw (e, drop_channelmappings)
        (SameCore-trans s (drop_channelmapping s h m) _ (drop_channelmapping-SameCore s h m)
          (drop_channelmappings-SameCore (drop_channelmapping s h m) hs))
]

-- The state of `close_session` just before the Node is detached.
abbrev pub undetached : State → Text → SessionEntry → State
undetached s handle session =
    let s2 = (drop_resources (forget_session s handle) (elements session.resources)).0 in
    forget_channelmapping_stream (drop_channelmappings s2 (elements session.channelmappings)).0
      handle

pub undetached-SameCore :
    (s : State) (handle : Text) (session : SessionEntry)
    → SameCore (forget_session s handle) (undetached s handle session)
unfolding forget_channelmapping_stream
undetached-SameCore s handle session =
    let s1 = forget_session s handle in
    let s2 = (drop_resources s1 (elements session.resources)).0 in
    let s3 = (drop_channelmappings s2 (elements session.channelmappings)).0 in
    let f =
      SameCore-trans s1 s2 s3 (drop_resources-SameCore s1 (elements session.resources))
        (drop_channelmappings-SameCore s2 (elements session.channelmappings)) in
    record {
      nodes = f.nodes;
      pending_nodes = f.pending_nodes;
      sessions = f.sessions;
      http_ports = f.http_ports;
      next_session_id = f.next_session_id;
    }
