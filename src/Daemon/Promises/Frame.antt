-- ===== src/Daemon/Promises/Frame.antt =====
-- What closing a session leaves alone, and what it does to the maps one by one.
use nvnmos.Common.{
  ◌==◌, nat_Eq, text_Eq, Text, ◌≡◌, refl, ap, ◌∙◌, inl, inr, Option, none, some, List, [], ◌∷◌,
  arith, if◌then◌else◌, Option-cases, any,
}
use nvnmos.HashMap
use nvnmos.HashMap.{get-remove, any-keys_where, HashMap}
use nvnmos.Daemon.Types.{
  side_Eq, name_key_Eq, seed_key_Eq, ResourceEntry, NodeEntry, SessionEntry, PendingActivation,
  ChannelMappingEntry,
}
use nvnmos.Daemon.State.{State}
use nvnmos.Daemon.Closing.{
  abort_pending, pending_of, drop_resource, drop_resources, elements, drop_channelmapping,
  drop_channelmappings, forget_session, forget_channelmapping_stream, detach, closed,
}
use nvnmos.Daemon.Nodes.Frame.{undetached-SameCore}
use nvnmos.Daemon.Index.Drop.{drop_channelmappings-SameIndex}

-- The streams and the activations that wait.
pub record SameStreams (s t : State) : Type 0 where
  pub subscriptions : t.subscriptions ≡ s.subscriptions
  pub annotation_subscriptions : t.annotation_subscriptions ≡ s.annotation_subscriptions
  pub channelmapping_subscriptions : t.channelmapping_subscriptions ≡ s.channelmapping_subscriptions
  pub pending_activations : t.pending_activations ≡ s.pending_activations
  pub pending_channelmapping_activations :
      t.pending_channelmapping_activations ≡ s.pending_channelmapping_activations

SameStreams-trans : (s t u : State) → SameStreams s t → SameStreams t u → SameStreams s u
SameStreams-trans s t u f g = record {
  subscriptions = g.subscriptions ∙ f.subscriptions;
  annotation_subscriptions = g.annotation_subscriptions ∙ f.annotation_subscriptions;
  channelmapping_subscriptions = g.channelmapping_subscriptions ∙ f.channelmapping_subscriptions;
  pending_activations = g.pending_activations ∙ f.pending_activations;
  pending_channelmapping_activations =
      g.pending_channelmapping_activations ∙ f.pending_channelmapping_activations;
}

same : (s : State) → SameStreams s s
same s = ground arith

drop_resource-SameStreams :
    (s : State) (h : Text) (r : ResourceEntry) → SameStreams s (drop_resource s h r)
unfolding drop_resource
drop_resource-SameStreams s h r = ground arith

drop_channelmapping-SameStreams :
    (s : State) (h : Text) (r : ChannelMappingEntry) → SameStreams s (drop_channelmapping s h r)
unfolding drop_channelmapping
drop_channelmapping-SameStreams s h r = ground arith

drop_resources-SameStreams : (s : State) (hs : List Text) → SameStreams s (drop_resources s hs).0
unfolding drop_resources
drop_resources-SameStreams s [] = same s
drop_resources-SameStreams s (h ∷ hs) = elim (Option-cases (HashMap.get s.resources h)) [
  | inl e ↦ rw (e, drop_resources) (drop_resources-SameStreams s hs)
  | inr (r, e) ↦
      rw (e, drop_resources)
        (SameStreams-trans s (drop_resource s h r) _ (drop_resource-SameStreams s h r)
          (drop_resources-SameStreams (drop_resource s h r) hs))
]

drop_channelmappings-SameStreams :
    (s : State) (hs : List Text) → SameStreams s (drop_channelmappings s hs).0
unfolding drop_channelmappings
drop_channelmappings-SameStreams s [] = same s
drop_channelmappings-SameStreams s (h ∷ hs) =
    elim (Option-cases (HashMap.get s.channelmappings h)) [
      | inl e ↦ rw (e, drop_channelmappings) (drop_channelmappings-SameStreams s hs)
      | inr (r, e) ↦
          rw (e, drop_channelmappings)
            (SameStreams-trans s (drop_channelmapping s h r) _
              (drop_channelmapping-SameStreams s h r)
              (drop_channelmappings-SameStreams (drop_channelmapping s h r) hs))
    ]

detach-SameStreams : (s : State) (seed : Text) (n : NodeEntry) → SameStreams s (detach s seed n)
unfolding detach
detach-SameStreams s seed n = ground arith

-- A removed list of activations is gone, and no other.
get-abort_pending :
    (m : HashMap Text PendingActivation) (hs : List Text) (k : Text)
    → HashMap.get (abort_pending m hs) k ≡ (if any (λ h. h == k) hs then none else HashMap.get m k)
unfolding abort_pending
get-abort_pending m [] k = refl
get-abort_pending m (h ∷ hs) k =
    ground (arith, get-abort_pending (HashMap.remove m h) hs k, get-remove m h k)

abbrev pub not_of : Text → Option PendingActivation → Option PendingActivation
not_of handle none = none
not_of handle (some p) = if p.session_handle == handle then none else some p

-- The activations of a session are aborted, and no others.
pub get-aborted :
    (m : HashMap Text PendingActivation) (handle k : Text)
    → HashMap.get (abort_pending m (pending_of handle m)) k ≡ not_of handle (HashMap.get m k)
unfolding pending_of
get-aborted m handle k = elim (Option-cases (HashMap.get m k)) [
  | inl q ↦ ground (arith, get-abort_pending m (pending_of handle m) k)
  | inr (p, q) ↦ ground (
    arith,
    get-abort_pending m (pending_of handle m) k,
    any-keys_where (λ _ p. p.session_handle == handle) m k,
  )
]

module _ (s : State) (handle : Text) (e : SessionEntry) (n : NodeEntry) where
  abbrev s2 : State
  s2 = (drop_resources (forget_session s handle) (elements e.resources)).0

  abbrev s3 : State
  s3 = (drop_channelmappings s2 (elements e.channelmappings)).0

  forget-SameStreams :
      SameStreams
        (forget_channelmapping_stream (forget_session s handle) handle)
        (forget_channelmapping_stream s3 handle)
  unfolding forget_channelmapping_stream
  forget-SameStreams =
      let f =
        SameStreams-trans (forget_session s handle) s2 s3
          (drop_resources-SameStreams (forget_session s handle) (elements e.resources))
          (drop_channelmappings-SameStreams s2 (elements e.channelmappings)) in
      record {
        subscriptions = f.subscriptions;
        annotation_subscriptions = f.annotation_subscriptions;
        channelmapping_subscriptions =
            ap (λ m. HashMap.remove m handle) f.channelmapping_subscriptions;
        pending_activations = f.pending_activations;
        pending_channelmapping_activations =
            ap (λ m. abort_pending m (pending_of handle m)) f.pending_channelmapping_activations;
      }

  -- A close ends the streams and the activations of its session, and nothing else of them.
  pub closed-SameStreams :
      SameStreams
        (forget_channelmapping_stream (forget_session s handle) handle)
        (closed s handle e n)
  unfolding closed
  closed-SameStreams =
      SameStreams-trans _ (forget_channelmapping_stream s3 handle) _ forget-SameStreams
        (detach-SameStreams (forget_channelmapping_stream s3 handle) e.node_seed n)

  pub closed-sessions : (closed s handle e n).sessions ≡ HashMap.remove s.sessions handle
  unfolding closed detach forget_session
  closed-sessions = ground (arith, (undetached-SameCore s handle e).sessions)

  pub closed-nodes : (closed s handle e n).nodes ≡ (detach s e.node_seed n).nodes
  unfolding closed detach forget_session
  closed-nodes = ground (arith, (undetached-SameCore s handle e).nodes)

  pub closed-http_ports : (closed s handle e n).http_ports ≡ (detach s e.node_seed n).http_ports
  unfolding closed detach forget_session
  closed-http_ports = ground (arith, (undetached-SameCore s handle e).http_ports)

  pub closed-pending_nodes : (closed s handle e n).pending_nodes ≡ s.pending_nodes
  unfolding closed detach forget_session
  closed-pending_nodes = ground (arith, (undetached-SameCore s handle e).pending_nodes)

  pub closed-resources : (closed s handle e n).resources ≡ s2.resources
  unfolding closed detach forget_channelmapping_stream
  closed-resources =
      ground (arith, (drop_channelmappings-SameIndex s2 (elements e.channelmappings)).resources)
