-- ===== src/Daemon/Requests/Accepted.antt =====
-- Which configurations the daemon accepts, and what it makes of them.
use nvnmos.Common.{
  nat_Eq, text_Eq, Text, ℕ, ◌^◌, ◌<◌, ◌≡◌, refl, ◌∙◌, ◌≢◌, ◌↔◌, inl, inr, true, false, ◌&&◌, Option,
  none, some, List, [], ◌∷◌, arith, if◌then◌else◌, Bool-cases, any,
}
use nvnmos.Wrapper.{AssetConfig, NetworkServicesConfig, NodeConfig}
use nvnmos.Daemon.Status.{Result-cases, ok}
use nvnmos.Daemon.Requests.{
  port_of, is_empty, translate_asset_tags, is_default, translate_network_services, or_default,
  translate_config, ProtoNodeConfig,
}

-- The optional messages that are not at their defaults, which cannot be told from absent ones.
abbrev pub given_asset : Option AssetConfig → Option AssetConfig
given_asset none = none
given_asset (some a) =
    if is_empty a.manufacturer
      && is_empty a.product
      && is_empty a.instance_id
      && is_empty a.functions
    then none
    else some a

abbrev pub given_services : Option NetworkServicesConfig → Option NetworkServicesConfig
given_services none = none
given_services (some n) = if is_default n then none else some n

-- All four fields are there.
abbrev pub IsWholeAsset : Option AssetConfig → Type 0
IsWholeAsset none = Unit {0}
IsWholeAsset (some a) =
    (a.manufacturer ≢ [])
    × (a.product ≢ [])
    × (a.instance_id ≢ [])
    × (a.functions ≢ [])
    × (any (λ (f : Text). is_empty f) a.functions ≡ false)

abbrev pub HasPorts : Option NetworkServicesConfig → Type 0
HasPorts none = Unit {0}
HasPorts (some n) = (n.registration_port < 2 ^ 16) × (n.system_port < 2 ^ 16)

port_of_iff : (n m : ℕ) → (port_of n ≡ ok m) ↔ ((n < 2 ^ 16) × (m ≡ n))
unfolding port_of
port_of_iff n m = ground arith

is_empty_iff : {A : Type 0} (xs : List A) → (is_empty xs ≡ true) ↔ (xs ≡ [])
is_empty_iff [] = ground arith
is_empty_iff (x ∷ xs) = ground arith

translate_asset_tags_iff :
    (o r : Option AssetConfig)
    → (translate_asset_tags o ≡ ok r) ↔ ((r ≡ given_asset o) × IsWholeAsset (given_asset o))
unfolding translate_asset_tags
translate_asset_tags_iff none r = ground arith
translate_asset_tags_iff (some a) r =
    elim (Bool-cases (
      is_empty a.manufacturer
      && is_empty a.product
      && is_empty a.instance_id
      && is_empty a.functions)) [
        | inl d ↦ rw (d, translate_asset_tags) (ground arith)
        | inr d ↦
            rw (d, translate_asset_tags)
              (ground (
                arith,
                is_empty_iff a.manufacturer,
                is_empty_iff a.product,
                is_empty_iff a.instance_id,
                is_empty_iff a.functions,
              ))
      ]

translate_network_services_iff :
    (o r : Option NetworkServicesConfig)
    → (translate_network_services o ≡ ok r) ↔ ((r ≡ given_services o) × HasPorts (given_services o))
unfolding translate_network_services port_of
translate_network_services_iff none r = ground arith
translate_network_services_iff (some n) r = elim (Bool-cases (is_default n)) [
  | inl d ↦ rw (d, translate_network_services) (ground arith)
  | inr d ↦ rw (d, translate_network_services) (ground arith)
]

-- A Node's configuration as libnvnmos takes it: optional messages at their defaults are left out.
abbrev pub accepted : ProtoNodeConfig → NodeConfig
accepted c = record {
  seed = c.seed;
  host_name = c.host_name;
  host_addresses = c.host_addresses;
  http_port = c.http_port;
  label = c.label;
  description = c.description;
  asset_tags = given_asset c.asset_tags;
  network_services = given_services c.network_services;
  node_annotation = none;
  device_annotation = none;
}

-- A configuration is accepted exactly when every port fits 16 bits and the asset tags, if any of them
-- is given, are all given; it is then passed on as it is, with optional messages that are at their
-- defaults left out.
pub translate_config_iff :
    (o : Option ProtoNodeConfig) (r : NodeConfig)
    → (translate_config o ≡ ok r) ↔ (
        (r ≡ accepted (or_default o))
        × ((or_default o).http_port < 2 ^ 16)
        × IsWholeAsset (given_asset (or_default o).asset_tags)
        × HasPorts (given_services (or_default o).network_services))
unfolding translate_config
translate_config_iff o r =
    let c = or_default o in
    elim (Result-cases (port_of c.http_port)) [
      | inl (e, p) ↦ (
        λ h. absurd (ground (arith, p)),
        λ (_, k, _, _).
            let good : port_of c.http_port ≡ ok c.http_port =
              (port_of_iff c.http_port c.http_port).1 (k, refl) in
            absurd (ground arith),
      )
      | inr (port, p) ↦ elim (Result-cases (translate_asset_tags c.asset_tags)) [
        | inl (e, a) ↦ (
          λ h. absurd (ground (arith, p, a)),
          λ (_, _, w, _).
              let good : translate_asset_tags c.asset_tags ≡ ok (given_asset c.asset_tags) =
                (translate_asset_tags_iff c.asset_tags _).1 (refl, w) in
              absurd (cc),
        )
        | inr (asset, a) ↦ elim (Result-cases (translate_network_services c.network_services)) [
          | inl (e, n) ↦ (
            λ h. absurd (ground (arith, p, a, n)),
            λ (_, _, _, w).
                let good : translate_network_services c.network_services
                    ≡ ok (given_services c.network_services) =
                  (translate_network_services_iff c.network_services _).1 (refl, w) in
                absurd (cc),
          )
          | inr (services, n) ↦
              let port_fits = (port_of_iff c.http_port port).0 p in
              let asset_whole = (translate_asset_tags_iff c.asset_tags asset).0 a in
              let services_fit = (translate_network_services_iff c.network_services services).0 n in
              let result : translate_config o
                  ≡ ok (record (accepted c) {
                    http_port = port;
                    asset_tags = asset;
                    network_services = services;
                  }) =
                ground (arith, p, a, n) in
              let same : translate_config o ≡ ok (accepted c) =
                result ∙ rw (port_fits.1, asset_whole.0, services_fit.0) refl in
              (
                λ h. (cc (h, same), port_fits.0, asset_whole.1, services_fit.1),
                λ (e, _, _, _). rw e same,
              )
        ]
      ]
    ]
