-- ===== src/Daemon/Steps/Valid/Begin.antt =====
-- The first sections of OpenSession and AddNode keep a system valid.
use nvnmos.Common.{nat_Eq, text_Eq, ℕ, ◌+◌, ◌^◌, ◌<◌, ◌≡◌, Bool, none}
use nvnmos.HashMap
use nvnmos.HashMap.{HashMap}
use nvnmos.Wrapper.{NodeConfig}
use nvnmos.Daemon.Types.{side_Eq, name_key_Eq, seed_key_Eq}
use nvnmos.Daemon.Ports.{PortRange}
use nvnmos.Daemon.Status.{ok}
use nvnmos.Daemon.Sessions.{
  reserve, prepare_open_session, prepare_add_node, OpenOutcome, CreateNodePrep, attached, create,
}
use nvnmos.Daemon.Sessions.Cases.{prepare_open_session_cases, prepare_add_node_cases}
use nvnmos.Daemon.Steps.{build_of, System}
use nvnmos.Daemon.Steps.Valid.{IsValid}
use nvnmos.Daemon.Steps.Valid.Open.{attach-IsValid, reserve-IsValid}

pub open_attach-IsValid :
    (y : System) (bindable : ℕ → Bool) (config : NodeConfig) (range : PortRange) (o : OpenOutcome)
    → IsValid y
    → y.state.next_session_id + 1 < 2 ^ 64
    → (prepare_open_session bindable y.state config range).1 ≡ ok (attached o)
    → IsValid (record y { state = (prepare_open_session bindable y.state config range).0 })
open_attach-IsValid y bindable config range o v bound =
    prepare_open_session_cases bindable y.state config range
      (λ r. r.1 ≡ ok (attached o) → IsValid (record y { state = r.0 })) (λ c h. cc)
      (λ n node _. attach-IsValid y config.seed n v node bound) (λ port b h. cc)

pub open_begin-IsValid :
    (y : System) (rpc : ℕ) (bindable : ℕ → Bool) (config : NodeConfig) (range : PortRange)
    (prep : CreateNodePrep)
    → IsValid y
    → HashMap.get y.builds rpc ≡ none
    → (prepare_open_session bindable y.state config range).1 ≡ ok (create prep)
    → IsValid (record y {
      state = (prepare_open_session bindable y.state config range).0;
      builds = HashMap.insert y.builds rpc (build_of prep);
    })
open_begin-IsValid y rpc bindable config range prep v new_rpc =
    prepare_open_session_cases bindable y.state config range
      (λ r.
        r.1 ≡ ok (create prep)
        → IsValid (record y { state = r.0; builds = HashMap.insert y.builds rpc (build_of prep) }))
      (λ c h. cc) (λ n node h. cc)
      (λ port b h.
        rw (reserved port (cc))
          (reserve-IsValid y rpc config port v new_rpc b.no_node b.not_pending b.free.0.0))
  where
    reserved :
        (port : ℕ)
        → create (reserve y.state config port).1 ≡ create prep
        → build_of prep ≡ record { seed = config.seed; http_port = port }
    reserved port h = unfold reserve in cc

pub add_node_begin-IsValid :
    (y : System) (rpc : ℕ) (bindable : ℕ → Bool) (config : NodeConfig) (range : PortRange)
    (prep : CreateNodePrep)
    → IsValid y
    → HashMap.get y.builds rpc ≡ none
    → (prepare_add_node bindable y.state config range).1 ≡ ok prep
    → IsValid (record y {
      state = (prepare_add_node bindable y.state config range).0;
      builds = HashMap.insert y.builds rpc (build_of prep);
    })
add_node_begin-IsValid y rpc bindable config range prep v new_rpc =
    prepare_add_node_cases bindable y.state config range
      (λ r.
        r.1 ≡ ok prep
        → IsValid (record y { state = r.0; builds = HashMap.insert y.builds rpc (build_of prep) }))
      (λ c h. cc)
      (λ port b h.
        rw (reserved port (cc))
          (reserve-IsValid y rpc config port v new_rpc b.no_node b.not_pending b.free.0.0))
  where
    reserved :
        (port : ℕ)
        → (reserve y.state config port).1 ≡ prep
        → build_of prep ≡ record { seed = config.seed; http_port = port }
    reserved port h = unfold reserve in cc
