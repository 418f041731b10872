-- ===== src/Daemon/Promises/Refusals.antt =====
-- An operation of rust/nvnmosd/src/state.rs that is refused leaves the state as it was.
use nvnmos.Common.{nat_Eq, text_Eq, Text, ℕ, ◌<◌, ◌≡◌, refl, ap, ◌∙◌, inl, inr, Bool, true, arith}
use nvnmos.Wrapper.{NodeConfig}
use nvnmos.Daemon.Types.{side_Eq, name_key_Eq, seed_key_Eq}
use nvnmos.Daemon.State.{State}
use nvnmos.Daemon.Status.{Code, Result, ok, err}
use nvnmos.Daemon.Ports.{PortRange}
use nvnmos.Daemon.Sessions.{prepare_open_session, prepare_add_node, remove_node}
use nvnmos.Daemon.Sessions.Cases.{
  prepare_open_session_cases, prepare_add_node_cases, remove_node_cases,
}
use nvnmos.Daemon.Resources.{remove_resource}
use nvnmos.Daemon.Resources.Cases.{remove_resource_cases}
use nvnmos.Daemon.Streams.{
  subscribe_activations, subscribe_annotations, subscribe_channelmapping_activations,
}
use nvnmos.Daemon.Activations.{complete_activation}
use nvnmos.Daemon.MappingRoutes.{remove_channelmapping, complete_channelmapping_activation}
use nvnmos.Daemon.AnnotationStore.{Inner}
use nvnmos.Daemon.Annotations.{open_annotations}
use nvnmos.Daemon.Annotations.Snapshot.{open_annotations_answers}

-- What a method answers beside the state that it leaves: an error is answered only from the state
-- as it was.
abbrev pub Keeps {ℓ} : {A : Type ℓ} → State → State × Result A → Type ℓ
Keeps s r = (c : Code) → r.1 ≡ err c → r.0 ≡ s

prepare_open_session-Keeps :
    (bindable : ℕ → Bool) (s : State) (config : NodeConfig) (range : PortRange)
    → Keeps s (prepare_open_session bindable s config range)
prepare_open_session-Keeps bindable s config range =
    prepare_open_session_cases bindable s config range (Keeps s) (λ c d h. refl)
      (λ n node d h. absurd (ground arith)) (λ p b d h. absurd (ground arith))

prepare_add_node-Keeps :
    (bindable : ℕ → Bool) (s : State) (config : NodeConfig) (range : PortRange)
    → Keeps s (prepare_add_node bindable s config range)
prepare_add_node-Keeps bindable s config range =
    prepare_add_node_cases bindable s config range (Keeps s) (λ c d h. refl)
      (λ p b d h. absurd (ground arith))

remove_node-Keeps : (s : State) (seed : Text) → Keeps s (remove_node s seed)
remove_node-Keeps s seed =
    remove_node_cases s seed (Keeps s) (λ c d h. refl) (λ n node k i d h. absurd (ground arith))

remove_resource-Keeps : (s : State) (handle id : Text) → Keeps s (remove_resource s handle id)
remove_resource-Keeps s handle id =
    remove_resource_cases s handle id (Keeps s) (λ c q d h. refl) (λ e q l d h. refl)
      (λ e r q l d h. absurd (ground arith))

complete_activation-Keeps :
    (s : State) (handle activation : Text) → Keeps s (complete_activation s handle activation)
unfolding complete_activation
complete_activation-Keeps s handle activation c h = ground arith

complete_mapping-Keeps :
    (s : State) (handle activation : Text)
    → Keeps s (complete_channelmapping_activation s handle activation)
unfolding complete_channelmapping_activation
complete_mapping-Keeps s handle activation c h = ground arith

remove_channelmapping-Keeps :
    (s : State) (handle id : Text) → Keeps s (remove_channelmapping s handle id)
unfolding remove_channelmapping
remove_channelmapping-Keeps s handle id c h = ground arith

subscribe_activations-Keeps :
    (f : ℕ → Bool) (s : State) (handle : Text) (tx : ℕ)
    → Keeps s (subscribe_activations f s handle tx)
unfolding subscribe_activations
subscribe_activations-Keeps f s handle tx c h = ground arith

subscribe_annotations-Keeps :
    (f : ℕ → Bool) (s : State) (handle : Text) (tx : ℕ)
    → Keeps s (subscribe_annotations f s handle tx)
unfolding subscribe_annotations
subscribe_annotations-Keeps f s handle tx c h = ground arith

subscribe_mapping-Keeps :
    (f : ℕ → Bool) (s : State) (handle : Text) (tx : ℕ)
    → Keeps s (subscribe_channelmapping_activations f s handle tx)
unfolding subscribe_channelmapping_activations
subscribe_mapping-Keeps f s handle tx c h = ground arith

open_annotations-Keeps :
    (accepts : ℕ → ℕ → Bool)
    → ((capacity n : ℕ) → n < capacity → accepts capacity n ≡ true)
    → (f : ℕ → Bool) (s : State) (handle : Text) (tx : ℕ) (store : Inner)
    → Keeps s (open_annotations f accepts s handle tx store)
open_annotations-Keeps accepts room f s handle tx store c h =
    elim (open_annotations_answers f accepts room s handle tx store) [
      | inl (d, q, e) ↦ ap (λ r. r.0) e ∙ subscribe_annotations-Keeps f s handle tx d q
      | inr (events, q, shot, e) ↦ absurd (ground (arith, h, e))
    ]

-- The requests that can be refused, but those to add a resource or a channel mapping, which drop a
-- stream whose receiver has gone even when they are refused.
pub data Request : Type 0 where
  open_session add_node : (ℕ → Bool) → NodeConfig → PortRange → Request
  drop_node : Text → Request
  withdraw : Text → Text → Request
  withdraw_mapping : Text → Text → Request
  acknowledge acknowledge_mapping : Text → Text → Request
  listen listen_mappings : (ℕ → Bool) → Text → ℕ → Request
  listen_annotations : (ℕ → Bool) → Text → ℕ → Inner → Request

abbrev forget {ℓ} : {A : Type ℓ} → State × Result A → State × Result (Unit {0})
forget r = (r.0, elim r.1 [ ok _ ↦ ok tt | err c ↦ err c ])

-- `accepts` is how the channel of a new annotation stream answers.
unfoldable pub serve : (ℕ → ℕ → Bool) → Request → State → State × Result (Unit {0})
serve accepts (open_session f config range) s = forget (prepare_open_session f s config range)
serve accepts (add_node f config range) s = forget (prepare_add_node f s config range)
serve accepts (drop_node seed) s = forget (remove_node s seed)
serve accepts (withdraw handle id) s = forget (remove_resource s handle id)
serve accepts (withdraw_mapping handle id) s = forget (remove_channelmapping s handle id)
serve accepts (acknowledge handle id) s = forget (complete_activation s handle id)
serve accepts (acknowledge_mapping handle id) s =
    forget (complete_channelmapping_activation s handle id)
serve accepts (listen f handle tx) s = subscribe_activations f s handle tx
serve accepts (listen_mappings f handle tx) s = subscribe_channelmapping_activations f s handle tx
serve accepts (listen_annotations f handle tx store) s =
    forget (open_annotations f accepts s handle tx store)

forget-Keeps {ℓ} : {A : Type ℓ} (s : State) (r : State × Result A) → Keeps s r → Keeps s (forget r)
forget-Keeps s (t, ok a) k c h = absurd (ground arith)
forget-Keeps s (t, err d) k c h = k d refl

-- A request to open a session, to add or remove a Node, to remove a resource or a channel mapping, to
-- acknowledge an activation, or to subscribe to activations of either kind or to annotations, when it
-- is refused, leaves the whole state as it was, as long as the channel of a new annotation stream takes
-- as many events as it has room for.
pub serve-Keeps :
    (accepts : ℕ → ℕ → Bool)
    → ((capacity n : ℕ) → n < capacity → accepts capacity n ≡ true)
    → (r : Request) (s : State) (c : Code) → (serve accepts r s).1 ≡ err c
    → (serve accepts r s).0 ≡ s
unfolding serve
serve-Keeps accepts room (open_session f config range) s =
    forget-Keeps s _ (prepare_open_session-Keeps f s config range)
serve-Keeps accepts room (add_node f config range) s =
    forget-Keeps s _ (prepare_add_node-Keeps f s config range)
serve-Keeps accepts room (drop_node seed) s = forget-Keeps s _ (remove_node-Keeps s seed)
serve-Keeps accepts room (withdraw handle id) s =
    forget-Keeps s _ (remove_resource-Keeps s handle id)
serve-Keeps accepts room (withdraw_mapping handle id) s =
    forget-Keeps s _ (remove_channelmapping-Keeps s handle id)
serve-Keeps accepts room (acknowledge handle id) s =
    forget-Keeps s _ (complete_activation-Keeps s handle id)
serve-Keeps accepts room (acknowledge_mapping handle id) s =
    forget-Keeps s _ (complete_mapping-Keeps s handle id)
serve-Keeps accepts room (listen f handle tx) s = subscribe_activations-Keeps f s handle tx
serve-Keeps accepts room (listen_mappings f handle tx) s = subscribe_mapping-Keeps f s handle tx
serve-Keeps accepts room (listen_annotations f handle tx store) s =
    forget-Keeps s _ (open_annotations-Keeps accepts room f s handle tx store)
