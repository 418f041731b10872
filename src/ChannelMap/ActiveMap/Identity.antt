-- ===== src/ChannelMap/ActiveMap/Identity.antt =====
-- `default_identity_routes` sends each channel of the input bus to the output channel of the same
-- number.
use nvnmos.Common.{
  nat_Eq, text_Eq, Text, ℕ, zero, suc, ◌+◌, ◌≤◌, ◌<◌, ◌≡◌, refl, ap, ◌∙◌, true, Option, none, some,
  List, [], ◌∷◌, ◌++◌, map, arith, ltb, length, get_elem?,
}
use nvnmos.ChannelMap.Topology.{SinkPadSnapshot, FrozenTopology}
use nvnmos.ChannelMap.Topology.Bus.{before}
use nvnmos.ChannelMap.Validation.{ActiveMapRoute}
use nvnmos.ChannelMap.ActiveMap.{pad_routes, id_or, bus_routes, default_identity_routes}

pub below : (a b : ℕ) → a < b → ltb a b ≡ true
below a b h = ground arith

abbrev identity_route : ℕ → Text → ℕ → ActiveMapRoute
identity_route o id c = record { output_channel = o; input_id = id; input_channel = c }

identity_route_eq :
    (o o' c c' : ℕ) (id : Text)
    → o ≡ o'
    → c ≡ c'
    → some (identity_route o id c) ≡ some (identity_route o' id c')
identity_route_eq o o' c c' id p q = rw (p, q) refl

module _ (n : ℕ) (id : Text) where
  get-pad_routes :
      (ch count logical c : ℕ)
      → c < count
      → logical + c < n
      → get_elem? (pad_routes n id ch count logical).0 c
        ≡ some (identity_route (logical + c) id (ch + c))
  unfolding pad_routes
  get-pad_routes ch zero logical c h w = absurd (omega arith)
  get-pad_routes ch (suc count) logical zero h w =
      rw (below logical n (omega arith)) (identity_route_eq _ _ _ _ id (omega arith) (omega arith))
  get-pad_routes ch (suc count) logical (suc c) h w = rw (below logical n (omega arith)) (
      get-pad_routes (ch + 1) count (logical + 1) c (omega arith) (omega arith)
      ∙ identity_route_eq _ _ _ _ id (omega arith) (omega arith))

  pad_routes_end :
      (ch count logical : ℕ)
      → logical + count ≤ n
      → ((pad_routes n id ch count logical).1 ≡ some (logical + count))
        × (length (pad_routes n id ch count logical).0 ≡ count)
  unfolding pad_routes
  pad_routes_end ch zero logical w = (ap some (omega arith), refl)
  pad_routes_end ch (suc count) logical w =
      let rest = pad_routes_end (ch + 1) count (logical + 1) (omega arith) in
      rw (below logical n (omega arith)) (rest.0 ∙ ap some (omega arith), ap suc rest.1)

-- The id that the element takes for the input at a position.
unfoldable pub input_id_at : List Text → List SinkPadSnapshot → ℕ → ℕ → Option Text
input_id_at ids [] offset i = none
input_id_at ids (s ∷ ss) offset zero = some (id_or (get_elem? ids offset) s.input_id)
input_id_at ids (s ∷ ss) offset (suc i) = input_id_at ids ss (suc offset) i

abbrev pub widths : List SinkPadSnapshot → List ℕ
widths sinks = map (λ (s : SinkPadSnapshot). s.negotiated_channels) sinks

module _ {A : Type 0} where
  get_elem?-append_left :
      (xs ys : List A) (k : ℕ) (v : A) → get_elem? xs k ≡ some v → get_elem? (xs ++ ys) k ≡ some v
  get_elem?-append_left [] ys k v h = absurd (ground arith)
  get_elem?-append_left (x ∷ xs) ys zero v h = h
  get_elem?-append_left (x ∷ xs) ys (suc k) v h = get_elem?-append_left xs ys k v h

  get_elem?-append_right :
      (xs ys : List A) (j k : ℕ) → j ≡ length xs + k → get_elem? (xs ++ ys) j ≡ get_elem? ys k
  get_elem?-append_right [] ys j k l = ap (get_elem? ys) (omega arith)
  get_elem?-append_right (x ∷ xs) ys zero k l = absurd (omega arith)
  get_elem?-append_right (x ∷ xs) ys (suc j) k l = get_elem?-append_right xs ys j k (omega arith)

  joined_left :
      (xs : List A) (end : Option ℕ) (more : ℕ → List A) (k : ℕ) (v : A)
      → get_elem? xs k ≡ some v
      → get_elem? (elim end as (λ _. List A) [ none ↦ xs | some next ↦ xs ++ more next ]) k ≡ some v
  joined_left xs none more k v h = h
  joined_left xs (some next) more k v h = get_elem?-append_left xs (more next) k v h

module _ (ids : List Text) (n : ℕ) where
  get-bus_routes :
      (offset : ℕ) (sinks : List SinkPadSnapshot) (logical i w c : ℕ) (id : Text)
      → input_id_at ids sinks offset i ≡ some id
      → get_elem? (widths sinks) i ≡ some w
      → c < w
      → logical + (before (widths sinks) i + c) < n
      → get_elem? (bus_routes ids n offset sinks logical) (before (widths sinks) i + c)
        ≡ some (identity_route (logical + (before (widths sinks) i + c)) id c)
  unfolding bus_routes input_id_at before
  get-bus_routes offset [] logical i w c id p q h l = absurd (ground arith)
  get-bus_routes offset (s ∷ ss) logical zero w c id p q h l =
      let named : id_or (get_elem? ids offset) s.input_id ≡ id = ground arith in
      let wide : s.negotiated_channels ≡ w = ground arith in
      joined_left _ _ (λ next. bus_routes ids n (suc offset) ss next) (0 + c) _
        (get-pad_routes n (id_or (get_elem? ids offset) s.input_id) 0 s.negotiated_channels logical
            (0 + c) (rw wide (omega arith)) (omega arith)
          ∙ rw named (identity_route_eq _ _ _ _ id refl (omega arith)))
  get-bus_routes offset (s ∷ ss) logical (suc i) w c id p q h l =
      let m = s.negotiated_channels in
      let k = before (widths ss) i + c in
      let pushed = pad_routes n (id_or (get_elem? ids offset) s.input_id) 0 m logical in
      let ended : (pushed.1 ≡ some (logical + m)) × (length pushed.0 ≡ m) =
        pad_routes_end n (id_or (get_elem? ids offset) s.input_id) 0 m logical (omega arith) in
      rw (ended.0, bus_routes)
        (get_elem?-append_right pushed.0 (bus_routes ids n (suc offset) ss (logical + m)) _ k
            (rw (ended.1) (omega arith))
          ∙ get-bus_routes (suc offset) ss (logical + m) i w c id p q h (omega arith)
          ∙ identity_route_eq _ _ _ _ id (omega arith) refl)

module _ (t : FrozenTopology) (n : ℕ) (sinks : List SinkPadSnapshot) where
  -- Where the element has one output and no active map, channel `c` of each input, the one that
  -- stands at slot `k` of the bus, is routed to output channel `k`, for every `k` that the output
  -- has.
  pub default_identity_routes-diagonal :
      (src_index i w c k : ℕ) (id : Text)
      → input_id_at t.input_ids sinks 0 i ≡ some id
      → get_elem? (widths sinks) i ≡ some w
      → c < w
      → k ≡ before (widths sinks) i + c
      → k < n
      → get_elem? (default_identity_routes t src_index n sinks 1) k
        ≡ some (record { output_channel = k; input_id = id; input_channel = c })
  unfolding default_identity_routes
  default_identity_routes-diagonal src_index i w c k id p q h e l = rw e (
      get-bus_routes t.input_ids n 0 sinks 0 i w c id p q h (omega arith)
      ∙ identity_route_eq _ _ _ _ id (omega arith) refl)
