-- ===== src/Daemon/Promises/MappingIds.antt =====
-- What the ids of a channel mapping are (`effective_channelmapping_input_ids`,
-- `effective_channelmapping_output_ids` and the checks of `prepare_add_channelmapping` in
-- rust/nvnmosd/src/state.rs).
use nvnmos.Common.{
  ◌==◌, ==_iff, ==_refl, nat_Eq, text_Eq, Text, codes, decimal, all-append, all-decimal, ℕ, suc,
  ◌+◌, ◌≡◌, refl, ap, ◌∙◌, ◌≢◌, inl, inr, Bool, true, false, ◌||◌, none, some, List, [], ◌∷◌, ◌++◌,
  map, arith, Bool-cases, Option-cases, length, any, all, length-map,
}
use nvnmos.HashMap
use nvnmos.HashMap.{any-values, HashMap}
use nvnmos.Daemon.Types.{side_Eq, name_key_Eq, seed_key_Eq, SessionEntry, ChannelMappingEntry}
use nvnmos.Daemon.State.{State}
use nvnmos.Daemon.Status.{Result-cases, ok}
use nvnmos.Daemon.Streams.{
  is_live, reap_closed_channelmapping_subscription, has_active_channelmapping_subscription,
}
use nvnmos.Daemon.Resources.{server_of}
use nvnmos.Daemon.ChannelMappings.{
  ProtoInput, ProtoOutput, is_id_byte, is_channelmapping_id, or_default, ids_from,
  effective_input_ids, effective_output_ids, build_channelmapping, seed_key, meets, conflicts,
  check_ids, find_mapping_room, prepare_add_channelmapping, AddChannelMappingPrep,
}

-- An id may be left out, and is valid otherwise.
abbrev pub is_optional_id : Text → Bool
is_optional_id id = id == [] || is_channelmapping_id id

default-IsId :
    (prefix : Text) (n : ℕ)
    → is_channelmapping_id prefix ≡ true
    → is_channelmapping_id (prefix ++ decimal n) ≡ true
unfolding is_channelmapping_id is_id_byte
default-IsId [] n h = absurd (ground (arith, ==_refl {K = Text} []))
default-IsId (c ∷ prefix) n h = ground (
  arith,
  all-append is_id_byte (c ∷ prefix) (decimal n) (ground arith)
      (all-decimal is_id_byte n (λ d l. ground arith)),
  ==_iff (c ∷ prefix ++ decimal n) [],
)

ids_from_valid :
    (prefix : Text) (n : ℕ) (ids : List Text)
    → is_channelmapping_id prefix ≡ true
    → all is_channelmapping_id (ids_from prefix n ids) ≡ all is_optional_id ids
unfolding ids_from or_default
ids_from_valid prefix n [] h = refl
ids_from_valid prefix n ([] ∷ ids) h =
    ground
      (arith, ids_from_valid prefix (n + 1) ids h, default-IsId prefix n h, ==_refl {K = Text} [])
ids_from_valid prefix n ((c ∷ id) ∷ ids) h =
    ground (arith, ids_from_valid prefix (n + 1) ids h, ==_iff (c ∷ id) [])

length-ids_from :
    (prefix : Text) (n : ℕ) (ids : List Text) → length (ids_from prefix n ids) ≡ length ids
unfolding ids_from
length-ids_from prefix n [] = refl
length-ids_from prefix n (id ∷ ids) = ap suc (length-ids_from prefix (n + 1) ids)

input_prefix : is_channelmapping_id (codes "input") ≡ true
unfolding is_channelmapping_id is_id_byte
input_prefix = ground (arith, ==_iff (codes "input") [])

output_prefix : is_channelmapping_id (codes "output") ≡ true
unfolding is_channelmapping_id is_id_byte
output_prefix = ground (arith, ==_iff (codes "output") [])

-- The effective ids of the inputs are all valid exactly when each given id is valid or left out, and
-- so are those of the outputs; there is one for each input and output.
pub effective_ids_valid :
    (inputs : List ProtoInput) (outputs : List ProtoOutput)
    → (all is_channelmapping_id (effective_input_ids inputs)
        ≡ all is_optional_id (map (λ i. i.id) inputs))
      × (all is_channelmapping_id (effective_output_ids outputs)
          ≡ all is_optional_id (map (λ o. o.id) outputs))
      × (length (effective_input_ids inputs) ≡ length inputs)
      × (length (effective_output_ids outputs) ≡ length outputs)
unfolding effective_input_ids effective_output_ids
effective_ids_valid inputs outputs = (
  ids_from_valid (codes "input") 0 (map (λ i. i.id) inputs) input_prefix,
  ids_from_valid (codes "output") 0 (map (λ o. o.id) outputs) output_prefix,
  length-ids_from (codes "input") 0 (map (λ i. i.id) inputs) ∙ length-map inputs (λ i. i.id),
  length-ids_from (codes "output") 0 (map (λ o. o.id) outputs) ∙ length-map outputs (λ o. o.id),
)

-- What was asked for goes into the plan, with the effective ids and what libnvnmos is given.
pub record IsMappingAsked (handle name : Text) (inputs : List ProtoInput)
    (outputs : List ProtoOutput) (p : AddChannelMappingPrep) : Type 0 where
  pub handle_kept : p.session_handle ≡ handle
  pub name_kept : p.name ≡ name
  pub named : name ≢ []
  pub input_ids : p.input_ids ≡ effective_input_ids inputs
  pub output_ids : p.output_ids ≡ effective_output_ids outputs
  pub mapping : p.mapping ≡ build_channelmapping inputs outputs p.input_ids p.output_ids

-- A mapping that is prepared uses no id of another mapping of its Node.
pub record IsRoom (checking : ℕ → Bool) (s : State) (p : AddChannelMappingPrep) : Type 0 where
  pub session : SessionEntry
  pub known : HashMap.get s.sessions p.session_handle ≡ some session
  pub on_node : p.node_seed ≡ session.node_seed
  pub unused : HashMap.get s.channelmappings_by_name (seed_key p.node_seed p.name) ≡ none
  pub server : server_of s p.node_seed ≡ some p.server
  pub live : is_live checking s.channelmapping_subscriptions p.session_handle ≡ true
  pub inputs : all is_channelmapping_id p.input_ids ≡ true
  pub outputs : all is_channelmapping_id p.output_ids ≡ true
  pub apart :
      (id : Text) (m : ChannelMappingEntry)
      → HashMap.get s.channelmappings id ≡ some m
      → m.node_seed ≡ p.node_seed
      → (meets p.input_ids m.input_ids ≡ false) × (meets p.output_ids m.output_ids ≡ false)

check_ids_ok :
    (s : State) (seed : Text) (outputs : List ProtoOutput) (inputs ids : List Text) (u : Unit {0})
    → check_ids s seed outputs inputs ids ≡ ok u
    → (all is_channelmapping_id inputs ≡ true)
      × (all is_channelmapping_id ids ≡ true)
      × (any (conflicts seed inputs ids) (HashMap.values s.channelmappings) ≡ false)
unfolding check_ids
check_ids_ok s seed outputs inputs ids u h = (ground arith, ground arith, ground arith)

find_mapping_room-IsRoom :
    (checking : ℕ → Bool) (s : State) (handle name : Text) (inputs : List ProtoInput)
    (outputs : List ProtoOutput) (p : AddChannelMappingPrep)
    → is_live checking s.channelmapping_subscriptions handle ≡ true
    → find_mapping_room s handle name inputs outputs ≡ ok p
    → IsRoom checking s p
unfolding find_mapping_room
find_mapping_room-IsRoom checking s handle name inputs outputs p live h =
    elim (Option-cases (HashMap.get s.sessions handle)) [
      | inl q ↦ absurd (ground (arith, q))
      | inr (e, q) ↦
          elim (Result-cases (
            check_ids s e.node_seed outputs (effective_input_ids inputs)
              (effective_output_ids outputs))) [
                | inl (c, k) ↦ absurd (ground arith)
                | inr (u, k) ↦
                    let f =
                      check_ids_ok s e.node_seed outputs (effective_input_ids inputs)
                        (effective_output_ids outputs) u k in
                    record {
                      session = e;
                      known = ground arith;
                      on_node = ground arith;
                      unused = ground arith;
                      server = ground arith;
                      live = ground arith;
                      inputs = ground (arith, f.0);
                      outputs = ground (arith, f.1);
                      apart = λ id m held on.
                          unfold conflicts in
                          ground (
                            arith,
                            ==_iff m.node_seed p.node_seed,
                            any-values
                                (conflicts e.node_seed (effective_input_ids inputs)
                                  (effective_output_ids outputs))
                                s.channelmappings id m f.2 held,
                          );
                    }
              ]
    ]

find_mapping_room-IsMappingAsked :
    (s : State) (handle name : Text) (inputs : List ProtoInput) (outputs : List ProtoOutput)
    (p : AddChannelMappingPrep)
    → name ≢ []
    → find_mapping_room s handle name inputs outputs ≡ ok p
    → IsMappingAsked handle name inputs outputs p
unfolding find_mapping_room
find_mapping_room-IsMappingAsked s handle name inputs outputs p n h =
    elim (Option-cases (HashMap.get s.sessions handle)) [
      | inl q ↦ absurd (ground (arith, q))
      | inr (e, q) ↦ record {
        handle_kept = ground arith;
        name_kept = ground arith;
        named = n;
        input_ids = ground arith;
        output_ids = ground arith;
        mapping = ground arith;
      }
    ]

-- A channel mapping that is prepared is the one that was asked for, with the effective ids of its
-- inputs and outputs and under a name that is not empty. It is for an open session with a connected
-- IS-08 stream, on the Node of that session, under a name that is free; its ids are valid, and none of
-- them is used by another mapping of that Node.
pub prepare_add_channelmapping-IsRoom :
    (reaping checking : ℕ → Bool) (s : State) (handle name : Text) (inputs : List ProtoInput)
    (outputs : List ProtoOutput) (p : AddChannelMappingPrep)
    → (prepare_add_channelmapping reaping checking s handle name inputs outputs).1 ≡ ok p
    → IsMappingAsked handle name inputs outputs p
      × IsRoom checking
          (prepare_add_channelmapping reaping checking s handle name inputs outputs).0
          p
unfolding prepare_add_channelmapping has_active_channelmapping_subscription
prepare_add_channelmapping-IsRoom reaping checking s handle [] inputs outputs p =
    λ h. absurd (ground arith)
prepare_add_channelmapping-IsRoom reaping checking s handle (c ∷ name) inputs outputs p =
    let s' = reap_closed_channelmapping_subscription reaping s handle in
    elim (Bool-cases (is_live checking s'.channelmapping_subscriptions handle)) [
      | inl live ↦ rw live (λ h. (
        find_mapping_room-IsMappingAsked s' handle (c ∷ name) inputs outputs p
            (λ q. absurd (ground arith)) h,
        find_mapping_room-IsRoom checking s' handle (c ∷ name) inputs outputs p live h,
      ))
      | inr quiet ↦ rw quiet (λ h. absurd (ground arith))
    ]
