-- ===== src/ChannelMap/ActiveMap/Dense.antt =====
-- A dense active map holds each route at its output channel.
use nvnmos.Common.{
  nat_Eq, text_Eq, ℕ, ◌<◌, ◌≡◌, refl, ap, ◌∙◌, ◌≢◌, inl, inr, Bool, true, false, ◌||◌, some, List,
  [], ◌∷◌, arith, ltb, nat_eq, if◌then◌else◌, nat_eq_iff, Bool-cases, length, get_elem?, set,
  replicate, length-replicate, get_elem?-replicate, length-set, get_elem?-set_self,
  get_elem?-set_ne,
}
use nvnmos.ChannelMap.Topology.{FrozenTopology}
use nvnmos.ChannelMap.Validation.{ActiveMapRoute}
use nvnmos.ChannelMap.Validation.Valid.{routes_to, IsActiveMap, no_route, add_route}
use nvnmos.ChannelMap.ActiveMap.{no_entry, entry_of, fill, active_map_entries_from_routes}
use nvnmos.Wrapper.{ActiveMapEntry}

-- The entry that the routes want at an output channel.
unfoldable pub wanted : ℕ → List ActiveMapRoute → ActiveMapEntry → ActiveMapEntry
wanted o [] old = old
wanted o (r ∷ rs) old = if nat_eq o r.output_channel then entry_of r else wanted o rs old

wanted_none :
    (o : ℕ) (rs : List ActiveMapRoute) (old : ActiveMapEntry)
    → routes_to o rs ≡ false
    → wanted o rs old ≡ old
unfolding wanted
wanted_none o [] old h = refl
wanted_none o (r ∷ rs) old h =
    let f : (nat_eq o r.output_channel ≡ false) × (routes_to o rs ≡ false) = or_false _ _ h in
    rw f.0 (wanted_none o rs old f.1)
  where
    or_false : (a b : Bool) → (a || b) ≡ false → (a ≡ false) × (b ≡ false)
    or_false a b e = ground arith

apart : (o k : ℕ) → nat_eq o k ≡ false → k ≢ o
apart o k e p = ground arith

at_channel :
    (entries : List ActiveMapEntry) (r : ActiveMapRoute) (o : ℕ)
    → o ≡ r.output_channel
    → r.output_channel < length entries
    → get_elem? (set entries r.output_channel (entry_of r)) o ≡ some (entry_of r)
at_channel entries r o p h = rw p (get_elem?-set_self entries r.output_channel (entry_of r) h)

module _ (t : FrozenTopology) (n : ℕ) where
  fill-wanted :
      (entries : List ActiveMapEntry) (routes : List ActiveMapRoute) (o : ℕ) (old : ActiveMapEntry)
      → length entries ≡ n
      → IsActiveMap t n routes
      → get_elem? entries o ≡ some old
      → get_elem? (fill n entries routes) o ≡ some (wanted o routes old)
  unfolding fill wanted
  fill-wanted entries _ o old l no_route q = q
  fill-wanted entries _ o old l (add_route r rs i d a) q =
      let kept : length (set entries r.output_channel (entry_of r)) ≡ n =
        length-set entries r.output_channel (entry_of r) ∙ l in
      let inside : ltb r.output_channel n ≡ true = ground (arith, i.output) in
      rw inside (elim (Bool-cases (nat_eq o r.output_channel)) [
        | inl e ↦ rw e (
            fill-wanted (set entries r.output_channel (entry_of r)) rs o (entry_of r) kept a
              (at_channel entries r o ((nat_eq_iff o r.output_channel).0 e) (rw l (i.output)))
            ∙ ap some (wanted_none o rs (entry_of r) (rw ((nat_eq_iff o r.output_channel).0 e) d)))
        | inr e ↦ rw e (
            fill-wanted (set entries r.output_channel (entry_of r)) rs o old kept a (
              get_elem?-set_ne entries r.output_channel o (entry_of r)
                (λ p. apart o r.output_channel e p)
              ∙ q))
      ])

  -- The dense form of a valid active map has an entry for each channel of the output: the one of
  -- the route to that channel, and an empty entry where no route leads.
  pub active_map_entries_from_routes-wanted :
      (routes : List ActiveMapRoute) (o : ℕ)
      → IsActiveMap t n routes
      → o < n
      → get_elem? (active_map_entries_from_routes n routes) o ≡ some (wanted o routes no_entry)
  unfolding active_map_entries_from_routes
  active_map_entries_from_routes-wanted routes o a h =
      fill-wanted (replicate n no_entry) routes o no_entry (length-replicate n no_entry) a
        (get_elem?-replicate n o no_entry h)
