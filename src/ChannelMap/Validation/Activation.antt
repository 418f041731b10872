-- ===== src/ChannelMap/Validation/Activation.antt =====
-- Which routes `routes_from_activation` (rust/gst-nmos-rs/src/channel_mapping/matrix.rs) makes of the
-- active map of an activation.
use nvnmos.Common.{
  ==_iff, nat_Eq, text_Eq, Text, ℕ, suc, ◌+◌, ◌%◌, ◌^◌, ◌<◌, ◌≡◌, refl, sym, ◌∙◌, ◌≢◌, inl, inr,
  none, some, List, [], ◌∷◌, arith, Option-cases, length, get_elem?,
}
use nvnmos.ChannelMap.Topology.{position, FrozenTopology}
use nvnmos.ChannelMap.Validation.{
  or_zero, validate_active_map_for_output, route_of, routes_of, routes_from_activation,
  ActiveMapRoute,
}
use nvnmos.ChannelMap.Validation.Valid.{validate_active_map_for_output_iff, IsActiveMap}
use nvnmos.Wrapper.{ActiveMapEntry}

-- The route leads to the position of an entry, counted from a first one, and from the input and
-- channel that the entry names.
pub record IsFrom (first : ℕ) (entries : List ActiveMapEntry) (r : ActiveMapRoute) : Type 0 where
  pub entry : ActiveMapEntry
  pub index : ℕ
  pub there : get_elem? entries index ≡ some entry
  pub output : r.output_channel ≡ first + index
  pub input : entry.input_id ≡ some r.input_id
  pub channel : entry.input_channel ≡ some r.input_channel
  pub named : r.input_id ≢ []

unfoldable pub Each : {A : Type 0} → (A → Type 0) → List A → Type 0
Each P [] = Unit
Each P (x ∷ xs) = P x × Each P xs

route_of-eq :
    (o : ℕ) (entry : ActiveMapEntry) (r : ActiveMapRoute)
    → route_of o entry ≡ some r
    → (r.output_channel ≡ o)
      × (entry.input_id ≡ some r.input_id)
      × (entry.input_channel ≡ some r.input_channel)
      × (r.input_id ≢ [])
unfolding route_of
route_of-eq o entry r h = elim (Option-cases entry.input_id) [
  | inl q ↦ absurd (ground (arith, q))
  | inr (id, q) ↦ elim (Option-cases entry.input_channel) [
    | inl w ↦ absurd (ground (arith, q, w))
    | inr (ch, w) ↦ (
      ground (arith, q, w),
      ground (arith, q, w),
      ground (arith, q, w),
      λ e. ground (arith, q, w, e, ==_iff id []),
    )
  ]
]

later :
    (first : ℕ) (e : ActiveMapEntry) (entries : List ActiveMapEntry) (r : ActiveMapRoute)
    → IsFrom (first + 1) entries r
    → IsFrom first (e ∷ entries) r
later first e entries r i = record {
  entry = i.entry;
  index = suc i.index;
  there = i.there;
  output = i.output ∙ omega arith;
  input = i.input;
  channel = i.channel;
  named = i.named;
}

Each-later :
    (first : ℕ) (e : ActiveMapEntry) (entries : List ActiveMapEntry) (rs : List ActiveMapRoute)
    → Each (IsFrom (first + 1) entries) rs
    → Each (IsFrom first (e ∷ entries)) rs
unfolding Each
Each-later first e entries [] i = tt
Each-later first e entries (r ∷ rs) i =
    (later first e entries r i.0, Each-later first e entries rs i.1)

routes_of-IsFrom :
    (first : ℕ) (entries : List ActiveMapEntry)
    → first + length entries < 2 ^ 32
    → Each (IsFrom first entries) (routes_of first entries)
unfolding routes_of Each
routes_of-IsFrom first [] h = tt
routes_of-IsFrom first (e ∷ entries) h =
    let rest =
      Each-later first e entries (routes_of (first + 1) entries)
        (routes_of-IsFrom (first + 1) entries (omega arith)) in
    elim (Option-cases (route_of (first % 2 ^ 32) e)) [
      | inl q ↦ rw (q, routes_of) rest
      | inr (r, q) ↦
          let f = route_of-eq (first % 2 ^ 32) e r q in
          rw (q, routes_of)
            (
              record {
                entry = e;
                index = 0;
                there = refl;
                output = f.0 ∙ omega arith;
                input = f.1;
                channel = f.2;
                named = f.3;
              },
              rest,
            )
    ]

-- An activation that is accepted gives routes that are possible on its output, no two to one output
-- channel, and each of them is that of the entry at its output channel, as long as the active map has
-- fewer than 2 ^ 32 entries.
pub routes_from_activation-IsActiveMap :
    (t : FrozenTopology) (output_id : Text) (entries : List ActiveMapEntry)
    (routes : List ActiveMapRoute)
    → length entries < 2 ^ 32
    → routes_from_activation t output_id entries ≡ inr routes
    → (index : ℕ) × (position output_id t.output_ids ≡ some index)
      × IsActiveMap t (or_zero (get_elem? t.output_channels index)) routes
      × Each (IsFrom 0 entries) routes
unfolding routes_from_activation
routes_from_activation-IsActiveMap t output_id entries routes bound h =
    elim (Option-cases (position output_id t.output_ids)) [
      | inl q ↦ absurd (ground (arith, q))
      | inr (index, q) ↦
          let out = or_zero (get_elem? t.output_channels index) in
          elim (Option-cases (validate_active_map_for_output t out (routes_of 0 entries))) [
            | inr (e, k) ↦ absurd (ground (arith, q, k))
            | inl k ↦
                let same = these index q k in
                (
                  index,
                  q,
                  rw (sym same)
                      ((validate_active_map_for_output_iff t out (routes_of 0 entries)).0 k),
                  rw (sym same) (routes_of-IsFrom 0 entries (omega arith)),
                )
          ]
    ]
  where
    these :
        (index : ℕ)
        → position output_id t.output_ids ≡ some index
        → validate_active_map_for_output t
            (or_zero (get_elem? t.output_channels index))
            (routes_of 0 entries)
          ≡ none
        → routes_of 0 entries ≡ routes
    these index q k = ground (arith, q, k, h)
