-- ===== src/Daemon/Promises/Close.antt =====
-- What `State::close_session` of rust/nvnmosd/src/state.rs promises.
use nvnmos.Common.{
  ◌==◌, ==_iff, ==_refl, nat_Eq, text_Eq, Text, ◌-◌, ◌≡◌, refl, ◌↔◌, ◌⊎◌, inl, inr, true, not, none,
  some, arith, if◌then◌else◌, Option-cases, is_some_and,
}
use nvnmos.HashMap
use nvnmos.HashMap.{get-remove, get-insert, count-remove, any-keys_where, HashMap}
use nvnmos.Daemon.Types.{
  side_Eq, name_key_Eq, seed_key_Eq, NodeEntry, SessionEntry, session_refcounted,
}
use nvnmos.Daemon.State.{State}
use nvnmos.Daemon.Status.{Result, not_found, ok, err}
use nvnmos.Daemon.Sessions.{CloseOutcome, CloseSessionFfi}
use nvnmos.Daemon.Closing.{
  drop_resources, elements, forget_session, forget_channelmapping_stream, destroys, detach, closed,
  close_outcome, close_ffi, close_session,
}
use nvnmos.Daemon.Nodes.{on}
use nvnmos.Daemon.Index.Drop.{get-drop_resources}
use nvnmos.Daemon.Steps.{System}
use nvnmos.Daemon.Steps.Valid.{IsValid}
use nvnmos.Daemon.Promises.Frame.{
  not_of, get-aborted, closed-SameStreams, closed-sessions, closed-nodes, closed-resources,
}

-- The streams of the session, and the activations that wait for it, are gone; the others stay.
pub record Ends (handle : Text) (s t : State) : Type 0 where
  pub subscriptions :
      (k : Text)
      → HashMap.get t.subscriptions k
        ≡ (if handle == k then none else HashMap.get s.subscriptions k)
  pub annotation_subscriptions :
      (k : Text)
      → HashMap.get t.annotation_subscriptions k
        ≡ (if handle == k then none else HashMap.get s.annotation_subscriptions k)
  pub channelmapping_subscriptions :
      (k : Text)
      → HashMap.get t.channelmapping_subscriptions k
        ≡ (if handle == k then none else HashMap.get s.channelmapping_subscriptions k)
  pub pending_activations :
      (k : Text)
      → HashMap.get t.pending_activations k ≡ not_of handle (HashMap.get s.pending_activations k)
  pub pending_channelmapping_activations :
      (k : Text)
      → HashMap.get t.pending_channelmapping_activations k
        ≡ not_of handle (HashMap.get s.pending_channelmapping_activations k)

module _ (y : System) (v : IsValid y) (handle : Text) where
  -- The two ways that a close ends on a valid system.
  pub close_session_cases {ℓ} :
      (P : State × Result (CloseOutcome × CloseSessionFfi) → Type ℓ)
      → (HashMap.get y.state.sessions handle ≡ none → P (y.state, err not_found))
      → ((e : SessionEntry) (n : NodeEntry)
          → HashMap.get y.state.sessions handle ≡ some e
          → HashMap.get y.state.nodes e.node_seed ≡ some n
          → P (closed y.state handle e n, ok (close_outcome e n, close_ffi y.state handle e n)))
      → P (close_session y.state handle)
  unfolding close_session
  close_session_cases P unknown known = elim (Option-cases (HashMap.get y.state.sessions handle)) [
    | inl q ↦ rw (q, close_session) (unknown q)
    | inr (e, q) ↦ elim (Option-cases (HashMap.get y.state.nodes e.node_seed)) [
      | inl missing ↦ absurd (ground (arith, v.core.session_node handle e q))
      | inr (n, node) ↦ rw (q, close_session) (rw (node, close_session) (known e n q node))
    ]
  ]

  -- On a valid system, a close succeeds exactly when the session is open; otherwise it answers
  -- NOT_FOUND and leaves the state as it was. It never answers INTERNAL.
  pub close_session_answers :
      ((HashMap.get y.state.sessions handle ≡ none)
        × (close_session y.state handle ≡ (y.state, err not_found)))
      ⊎ ((HashMap.contains_key y.state.sessions handle ≡ true)
          × (o : CloseOutcome × CloseSessionFfi) × ((close_session y.state handle).1 ≡ ok o))
  close_session_answers =
      close_session_cases
        (λ r.
          ((HashMap.get y.state.sessions handle ≡ none) × (r ≡ (y.state, err not_found)))
          ⊎ ((HashMap.contains_key y.state.sessions handle ≡ true)
              × (o : CloseOutcome × CloseSessionFfi) × (r.1 ≡ ok o)))
        (λ q. inl (q, refl))
        (λ e n q node. inr (ground arith, (close_outcome e n, close_ffi y.state handle e n), refl))

  -- On a valid system, a close that succeeds reports the number of sessions that its Node has left,
  -- and that the Node was destroyed exactly when the Node is gone, which happens exactly to a
  -- session-refcounted Node whose last session this was.
  pub close_session_counts :
      (o : CloseOutcome) (f : CloseSessionFfi)
      → (close_session y.state handle).1 ≡ ok (o, f)
      → (o.remaining_sessions
          ≡ HashMap.count (on o.node_seed) (close_session y.state handle).0.sessions)
        × (o.node_destroyed
            ≡ not (HashMap.contains_key (close_session y.state handle).0.nodes o.node_seed))
        × ((o.node_destroyed ≡ true)
            ↔ ((o.lifetime ≡ session_refcounted) × (o.remaining_sessions ≡ 0)))
  close_session_counts o f =
      close_session_cases
        (λ r.
          r.1 ≡ ok (o, f)
          → (o.remaining_sessions ≡ HashMap.count (on o.node_seed) r.0.sessions)
            × (o.node_destroyed ≡ not (HashMap.contains_key r.0.nodes o.node_seed))
            × ((o.node_destroyed ≡ true)
                ↔ ((o.lifetime ≡ session_refcounted) × (o.remaining_sessions ≡ 0))))
        (λ q h. absurd (ground arith))
        (λ e n q node h.
          rw (outcome e n h)
            (remaining e n q node, gone e n, ground (arith, ==_iff (n.attached_sessions - 1) 0)))
    where
      outcome :
          (e : SessionEntry) (n : NodeEntry)
          → ◌≡◌ {A = Result (CloseOutcome × CloseSessionFfi)}
              (ok (close_outcome e n, close_ffi y.state handle e n))
              (ok (o, f))
          → o ≡ close_outcome e n
      outcome e n h = cc

      remaining :
          (e : SessionEntry) (n : NodeEntry)
          → HashMap.get y.state.sessions handle ≡ some e
          → HashMap.get y.state.nodes e.node_seed ≡ some n
          → n.attached_sessions - 1
            ≡ HashMap.count (on e.node_seed) (closed y.state handle e n).sessions
      remaining e n q node = rw closed-sessions (
          ground (
            arith,
            v.core.attached e.node_seed n,
            ==_refl e.node_seed,
            count-remove (on e.node_seed) y.state.sessions handle,
          ))

      gone :
          (e : SessionEntry) (n : NodeEntry)
          → destroys n ≡ not (HashMap.contains_key (closed y.state handle e n).nodes e.node_seed)
      gone e n = rw closed-nodes (
          unfold detach in
          ground (
            arith,
            ==_refl e.node_seed,
            get-remove y.state.nodes e.node_seed e.node_seed,
            get-insert y.state.nodes e.node_seed e.node_seed
                (record n { attached_sessions = n.attached_sessions - 1 }),
          ))

  -- On a valid system, a close that succeeds takes with it every resource of its session, and no
  -- other resource.
  pub close_session-resources :
      (id : Text)
      → HashMap.contains_key y.state.sessions handle ≡ true
      → HashMap.get (close_session y.state handle).0.resources id ≡ (
          if is_some_and (HashMap.get y.state.resources id) (λ r. r.session_handle == handle)
          then none
          else HashMap.get y.state.resources id)
  close_session-resources id =
      close_session_cases
        (λ r.
          HashMap.contains_key y.state.sessions handle ≡ true
          → HashMap.get r.0.resources id ≡ (
              if is_some_and (HashMap.get y.state.resources id) (λ r. r.session_handle == handle)
              then none
              else HashMap.get y.state.resources id))
        (λ q h. absurd (ground arith)) (λ e n q node h. rw closed-resources (left e q))
    where
      left :
          (e : SessionEntry)
          → HashMap.get y.state.sessions handle ≡ some e
          → HashMap.get
              (drop_resources (forget_session y.state handle) (elements e.resources)).0.resources
              id
            ≡ (if is_some_and (HashMap.get y.state.resources id) (λ r. r.session_handle == handle)
                then none
                else HashMap.get y.state.resources id)
      left e q = elim (Option-cases (HashMap.get y.state.resources id)) [
        | inl l ↦
            unfold forget_session in
            ground
              (arith, get-drop_resources (forget_session y.state handle) (elements e.resources) id)
        | inr (r, l) ↦
            unfold forget_session in
            ground (
              arith,
              get-drop_resources (forget_session y.state handle) (elements e.resources) id,
              any-keys_where (λ _ _. true) e.resources id,
              v.index.owner id r,
              v.index.owned handle e id,
              ==_iff r.session_handle handle,
            )
      ]

  -- On a valid system, a close that succeeds ends the three streams of its session and aborts the
  -- activations that wait for its acknowledgement; the streams and activations of the other sessions
  -- stay.
  pub close_session-Ends :
      HashMap.contains_key y.state.sessions handle ≡ true
      → Ends handle y.state (close_session y.state handle).0
  close_session-Ends =
      close_session_cases
        (λ r. HashMap.contains_key y.state.sessions handle ≡ true → Ends handle y.state r.0)
        (λ q h. absurd (ground arith))
        (λ e n q node h.
          let f = closed-SameStreams y.state handle e n in
          unfold forget_session forget_channelmapping_stream in
          record {
            subscriptions = λ k. rw f.subscriptions (get-remove y.state.subscriptions handle k);
            annotation_subscriptions = λ k.
                rw f.annotation_subscriptions
                  (get-remove y.state.annotation_subscriptions handle k);
            channelmapping_subscriptions = λ k.
                rw f.channelmapping_subscriptions
                  (get-remove y.state.channelmapping_subscriptions handle k);
            pending_activations =
                λ k. rw f.pending_activations (get-aborted y.state.pending_activations handle k);
            pending_channelmapping_activations = λ k.
                rw f.pending_channelmapping_activations
                  (get-aborted y.state.pending_channelmapping_activations handle k);
          })
