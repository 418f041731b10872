-- ===== src/Daemon/Promises/MappingRouting.antt =====
-- What the IS-08 activation router of rust/nvnmosd/src/state.rs promises: an output's activation goes
-- to the stream of the session that mapped it.
use nvnmos.Common.{
  ◌==◌, ==_iff, nat_Eq, text_Eq, Text, ℕ, ◌≡◌, inl, inr, Bool, false, ◌&&◌, some, List, [], ◌∷◌,
  arith, if◌then◌else◌, Bool-cases, Option-cases, any,
}
use nvnmos.HashMap
use nvnmos.HashMap.{get-insert, HashMap}
use nvnmos.Daemon.Types.{
  side_Eq, name_key_Eq, seed_key_Eq, SeedKey, SessionEntry, ChannelMappingEntry,
}
use nvnmos.Daemon.State.{channelmapping_handle, channelmapping_activation_handle, State}
use nvnmos.Daemon.Streams.{is_live, reap_closed_channelmapping_subscription}
use nvnmos.Daemon.Activations.{Sent, delivered}
use nvnmos.Daemon.ChannelMappings.{
  seed_key, add_outputs, record_channelmapping, commit_add_channelmapping,
}
use nvnmos.Daemon.MappingRoutes.{
  mapping_stream_of, send_mapping, dispatch_channelmapping_activation, ProtoActiveMapEntry,
  MappingEvent, MappingRouted, MappingDispatch, mapping_routed, no_channelmapping,
  no_mapping_subscriber,
}
use nvnmos.Daemon.Promises.Routing.{live_stream, get-reap_live, get-reap_quiet}

-- An activation was handed to the stream of the owner, and waits for it.
pub record IsMappingRouted (is_closed : ℕ → Bool) (send : ℕ → Sent) (s t : State) (key : SeedKey)
    (active_map : List ProtoActiveMapEntry) (r : MappingRouted) : Type 0 where
  pub id : Text
  pub mapping : ChannelMappingEntry
  pub found : HashMap.get s.outputs_by_id key ≡ some id
  pub there : HashMap.get s.channelmappings id ≡ some mapping
  pub stream : HashMap.get s.channelmapping_subscriptions mapping.session_handle ≡ some r.tx
  pub connected : is_closed r.tx ≡ false
  pub sent : send r.tx ≡ delivered
  pub event : r.event ≡ record {
    channelmapping_handle = id;
    activation_handle = r.activation_handle;
    output_id = key.name;
    active_map = active_map;
  }
  pub waits :
      (a : Text)
      → HashMap.get t.pending_channelmapping_activations a ≡ (
          if r.activation_handle == a
          then some (record { session_handle = mapping.session_handle; ack_tx = r.ack })
          else HashMap.get s.pending_channelmapping_activations a)

abbrev event_for : State → Text → Text → List ProtoActiveMapEntry → MappingEvent
event_for s id output active_map = record {
  channelmapping_handle = id;
  activation_handle = channelmapping_activation_handle s.next_channelmapping_activation_id;
  output_id = output;
  active_map = active_map;
}

-- An output that no mapping has, an owner that has no open stream, or a send on the owner's stream.
pub dispatch_mapping_cases {ℓ} :
    (is_closed : ℕ → Bool) (send : ℕ → Sent) (s : State) (seed output : Text)
    (active_map : List ProtoActiveMapEntry) (P : State × MappingDispatch → Type ℓ)
    → P (s, no_channelmapping)
    → ((id : Text) (m : ChannelMappingEntry)
        → HashMap.get s.outputs_by_id (seed_key seed output) ≡ some id
        → HashMap.get s.channelmappings id ≡ some m
        → is_live is_closed s.channelmapping_subscriptions m.session_handle ≡ false
        → P (
          reap_closed_channelmapping_subscription is_closed s m.session_handle,
          no_mapping_subscriber,
        ))
    → ((id : Text) (m : ChannelMappingEntry) (tx : ℕ)
        → HashMap.get s.outputs_by_id (seed_key seed output) ≡ some id
        → HashMap.get s.channelmappings id ≡ some m
        → HashMap.get s.channelmapping_subscriptions m.session_handle ≡ some tx
        → is_closed tx ≡ false
        → P (
            send_mapping send
              (reap_closed_channelmapping_subscription is_closed s m.session_handle)
              m.session_handle
              tx
              (event_for s id output active_map)))
    → P (dispatch_channelmapping_activation is_closed send s seed output active_map)
unfolding dispatch_channelmapping_activation mapping_stream_of
    reap_closed_channelmapping_subscription
dispatch_mapping_cases is_closed send s seed output active_map P unknown silent reaches =
    elim (Option-cases (HashMap.get s.outputs_by_id (seed_key seed output))) [
      | inl q ↦ rw (q, dispatch_channelmapping_activation) unknown
      | inr (id, q) ↦ elim (Option-cases (HashMap.get s.channelmappings id)) [
        | inl t ↦
            rw (q, dispatch_channelmapping_activation)
              (rw (t, dispatch_channelmapping_activation) unknown)
        | inr (m, t) ↦
            rw (q, dispatch_channelmapping_activation)
              (rw (t, dispatch_channelmapping_activation)
                (elim (Bool-cases
                  (is_live is_closed s.channelmapping_subscriptions m.session_handle)) [
                    | inr n ↦
                        rw
                          (get-reap_quiet is_closed s.channelmapping_subscriptions m.session_handle
                            n)
                          (silent id m q t n)
                    | inl l ↦
                        let (tx, k, o) =
                          live_stream is_closed s.channelmapping_subscriptions m.session_handle l in
                        rw
                          (get-reap_live is_closed s.channelmapping_subscriptions m.session_handle
                            tx k o)
                          (reaches id m tx q t k o)
                  ]))
      ]
    ]

-- An IS-08 activation that is routed goes to the open stream of the session that mapped the output,
-- carries the active active_map, and is recorded as pending for that session, beside those that were pending
-- before.
pub dispatch_mapping-IsMappingRouted :
    (is_closed : ℕ → Bool) (send : ℕ → Sent) (s : State) (seed output : Text)
    (active_map : List ProtoActiveMapEntry) (r : MappingRouted)
    → (dispatch_channelmapping_activation is_closed send s seed output active_map).1
      ≡ mapping_routed r
    → IsMappingRouted is_closed send s
        (dispatch_channelmapping_activation is_closed send s seed output active_map).0
        (seed_key seed output)
        active_map
        r
dispatch_mapping-IsMappingRouted is_closed send s seed output active_map r =
    dispatch_mapping_cases is_closed send s seed output active_map
      (λ d.
        d.1 ≡ mapping_routed r
        → IsMappingRouted is_closed send s d.0 (seed_key seed output) active_map r)
      (λ h. absurd (ground arith)) (λ id e q t n h. absurd (ground arith))
      (λ id e tx q t k o. sent id e tx q t k o)
  where
    sent :
        (id : Text) (e : ChannelMappingEntry) (tx : ℕ)
        → HashMap.get s.outputs_by_id (seed_key seed output) ≡ some id
        → HashMap.get s.channelmappings id ≡ some e
        → HashMap.get s.channelmapping_subscriptions e.session_handle ≡ some tx
        → is_closed tx ≡ false
        → (send_mapping send
            (reap_closed_channelmapping_subscription is_closed s e.session_handle)
            e.session_handle
            tx
            (event_for s id output active_map)).1
          ≡ mapping_routed r
        → IsMappingRouted is_closed send s
            (send_mapping send
              (reap_closed_channelmapping_subscription is_closed s e.session_handle)
              e.session_handle
              tx
              (event_for s id output active_map)).0
            (seed_key seed output)
            active_map
            r
    sent id e tx q t k o h =
        unfold send_mapping reap_closed_channelmapping_subscription in
        record {
          id = id;
          mapping = e;
          found = q;
          there = t;
          stream = ground arith;
          connected = ground arith;
          sent = ground arith;
          event = ground arith;
          waits = λ a. ground (
            arith,
            get-insert s.pending_channelmapping_activations
                (channelmapping_activation_handle s.next_channelmapping_activation_id) a
                (record {
                  session_handle = e.session_handle;
                  ack_tx = s.next_channelmapping_activation_id;
                }),
          );
        }

get-add_outputs :
    (m : HashMap SeedKey Text) (seed handle : Text) (ids : List Text) (k : SeedKey)
    → HashMap.get (add_outputs m seed handle ids) k ≡ (
        if k.node_seed == seed && any (λ id. id == k.name) ids
        then some handle
        else HashMap.get m k)
unfolding add_outputs
get-add_outputs m seed handle [] k = ground arith
get-add_outputs m seed handle (id ∷ ids) k =
    let key = seed_key seed id in
    ground (
      arith,
      get-add_outputs (HashMap.insert m key handle) seed handle ids k,
      get-insert m key k handle,
      ==_iff seed k.node_seed,
      ==_iff k.node_seed seed,
      ==_iff id k.name,
    )

-- A channel mapping that is committed for an open session gets every one of its outputs on its Node,
-- and leaves the routes of all other outputs as they were.
pub commit_add_channelmapping_outputs :
    (s : State) (name seed handle : Text) (e : SessionEntry) (inputs outputs : List Text)
    (k : SeedKey)
    → HashMap.get s.sessions handle ≡ some e
    → let t = (commit_add_channelmapping s name seed handle inputs outputs).0 in
      HashMap.get t.outputs_by_id k ≡ (
        if k.node_seed == seed && any (λ id. id == k.name) outputs
        then some (channelmapping_handle s.next_channelmapping_id)
        else HashMap.get s.outputs_by_id k)
unfolding commit_add_channelmapping record_channelmapping
commit_add_channelmapping_outputs s name seed handle e inputs outputs k known =
    rw (known, commit_add_channelmapping)
      (get-add_outputs s.outputs_by_id seed (channelmapping_handle s.next_channelmapping_id) outputs
        k)
