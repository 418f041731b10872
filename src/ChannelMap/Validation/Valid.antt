-- ===== src/ChannelMap/Validation/Valid.antt =====
-- What `validate_active_map_for_output` (rust/gst-nmos-rs/src/channel_mapping/matrix.rs) accepts.
use nvnmos.Common.{
  nat_Eq, text_Eq, ℕ, ◌<◌, ◌≡◌, refl, ap, ◌↔◌, inl, inr, Bool, true, false, Option, none, some,
  List, [], ◌∷◌, arith, nat_eq, nat_eq_iff, Option-cases, get_elem?, any,
}
use nvnmos.ChannelMap.Topology.{position, FrozenTopology}
use nvnmos.ChannelMap.Validation.{
  check_route, validate_from, validate_active_map_for_output, ActiveMapRoute,
  ActiveMapValidationError,
}

-- The input has the channel, and the output channel is one of the output's.
pub record IsRoute (t : FrozenTopology) (output_channels : ℕ) (r : ActiveMapRoute) : Type 0 where
  pub output : r.output_channel < output_channels
  pub pad : ℕ
  pub width : ℕ
  pub named : position r.input_id t.input_ids ≡ some pad
  pub has : get_elem? t.input_channels pad ≡ some width
  pub within : r.input_channel < width

-- Routes of which each is possible, and no two lead to one output channel.
abbrev pub routes_to : ℕ → List ActiveMapRoute → Bool
routes_to o routes = any (λ (r : ActiveMapRoute). nat_eq o r.output_channel) routes

pub data IsActiveMap (t : FrozenTopology) (output_channels : ℕ) : List ActiveMapRoute → Type 0 where
  no_route : IsActiveMap t output_channels []
  add_route :
      (r : ActiveMapRoute) (rs : List ActiveMapRoute)
      → IsRoute t output_channels r
      → routes_to r.output_channel rs ≡ false
      → IsActiveMap t output_channels rs
      → IsActiveMap t output_channels (r ∷ rs)

first_none :
    (c x : Option ActiveMapValidationError)
    → (elim c [ some e ↦ some e | none ↦ x ]) ≡ none
    → (c ≡ none) × (x ≡ none)
first_none none x h = (refl, h)
first_none (some e) x h = absurd (ground arith)

nat_eq_refl : (n : ℕ) → nat_eq n n ≡ true
nat_eq_refl n = (nat_eq_iff n n).1 refl

any_same :
    (seen : List ℕ) (o n : ℕ)
    → nat_eq o n ≡ true
    → any (λ x. nat_eq x o) seen ≡ any (λ x. nat_eq x n) seen
any_same seen o n h = ap (λ k. any (λ x. nat_eq x k) seen) ((nat_eq_iff o n).0 h)

module _ (t : FrozenTopology) (output_channels : ℕ) where
  check_route-IsRoute :
      (seen : List ℕ) (r : ActiveMapRoute)
      → check_route t output_channels seen r ≡ none
      → IsRoute t output_channels r × (any (λ o. nat_eq o r.output_channel) seen ≡ false)
  unfolding check_route
  check_route-IsRoute seen r h = elim (Option-cases (position r.input_id t.input_ids)) [
    | inl q ↦ absurd (ground (arith, q))
    | inr (i, q) ↦ elim (Option-cases (get_elem? t.input_channels i)) [
      | inl w ↦ absurd (ground (arith, q, w))
      | inr (n, w) ↦ (
        record {
          output = ground (arith, q, w);
          pad = i;
          width = n;
          named = q;
          has = w;
          within = ground (arith, q, w);
        },
        ground (arith, q, w),
      )
    ]
  ]

  IsRoute-check_route :
      (seen : List ℕ) (r : ActiveMapRoute)
      → IsRoute t output_channels r
      → any (λ o. nat_eq o r.output_channel) seen ≡ false
      → check_route t output_channels seen r ≡ none
  unfolding check_route
  IsRoute-check_route seen r i s = ground (arith, i.output, i.named, i.has, i.within, s)

  -- What the loop knows of the rounds to come.
  abbrev Apart : List ℕ → List ActiveMapRoute → Type 0
  Apart seen routes = (o : ℕ) → any (λ x. nat_eq x o) seen ≡ true → routes_to o routes ≡ false

  accepted :
      (seen : List ℕ) (routes : List ActiveMapRoute)
      → validate_from t output_channels seen routes ≡ none
      → IsActiveMap t output_channels routes × Apart seen routes
  unfolding validate_from
  accepted seen [] h = (no_route, λ o s. refl)
  accepted seen (r ∷ rs) h =
      let f =
        first_none (check_route t output_channels seen r)
          (validate_from t output_channels (r.output_channel ∷ seen) rs) h in
      let c = check_route-IsRoute seen r f.0 in
      let m = accepted (r.output_channel ∷ seen) rs f.1 in
      (
        add_route r rs c.0 (m.1 r.output_channel (rw (nat_eq_refl r.output_channel) refl)) m.0,
        λ o s. ground (
          arith,
          s,
          c.1,
          any_same seen o r.output_channel,
          m.1 o,
          nat_eq_iff o r.output_channel,
          nat_eq_iff r.output_channel o,
        ),
      )

  fresh :
      (seen : List ℕ) (r : ActiveMapRoute) (rs : List ActiveMapRoute)
      → Apart seen (r ∷ rs)
      → any (λ o. nat_eq o r.output_channel) seen ≡ false
  fresh seen r rs a = ground (arith, a r.output_channel, nat_eq_refl r.output_channel)

  accepts :
      (seen : List ℕ) (routes : List ActiveMapRoute)
      → IsActiveMap t output_channels routes
      → Apart seen routes
      → validate_from t output_channels seen routes ≡ none
  unfolding validate_from
  accepts seen _ no_route a = refl
  accepts seen _ (add_route r rs i d m) a =
      rw (IsRoute-check_route seen r i (fresh seen r rs a), validate_from)
        (accepts (r.output_channel ∷ seen) rs m (λ o s.
          ground (arith, s, d, a o, nat_eq_iff r.output_channel o, ap (λ k. routes_to k rs))))

  -- An active map is accepted exactly when each route is from a channel that its input has to a
  -- channel of the output, and no two routes lead to the same output channel.
  pub validate_active_map_for_output_iff :
      (routes : List ActiveMapRoute)
      → (validate_active_map_for_output t output_channels routes ≡ none)
        ↔ IsActiveMap t output_channels routes
  unfolding validate_active_map_for_output
  validate_active_map_for_output_iff routes =
      (λ h. (accepted [] routes h).0, λ m. accepts [] routes m (λ o s. absurd (ground arith)))
