-- ===== src/Daemon/Ports.antt =====
-- HTTP ports: `PortRange` (rust/nvnmosd/src/http_port.rs) and `State::resolve_http_port`. The bind
-- probe of the host is an argument.
pub mod Choice
use nvnmos.Common.{
  ◌==◌, nat_Eq, text_Eq, Text, ℕ, zero, suc, ◌+◌, ◌-◌, min, Bool, ◌||◌, Option, none, some, List,
  [], ◌∷◌, ltb, if◌then◌else◌,
}
use nvnmos.HashMap
use nvnmos.HashMap.{count, HashMap}
use nvnmos.Daemon.Status.{Result, already_exists, failed_precondition, resource_exhausted, ok, err}
use nvnmos.Daemon.State.{State}

pub record PortRange : Type 0 where
  pub min : ℕ
  pub max : ℕ

-- `PortRange::new`; the error is only a message.
unfoldable pub new : ℕ → ℕ → Option PortRange
new lo hi =
    if lo == 0 || hi == 0
    then none
    else if ltb hi lo
    then none
    else some (record { min = lo; max = hi })

-- `lo`, `lo + 1`, and so on: `count` ports.
unfoldable pub ports_from : ℕ → ℕ → List ℕ
ports_from lo zero = []
ports_from lo (suc count) = lo ∷ ports_from (lo + 1) count

-- `PortRange::iter`, the inclusive span.
unfoldable pub iter : PortRange → List ℕ
unfolding ports_from
iter r = ports_from r.min (r.max + 1 - r.min)

-- The loop of `resolve_http_port`: the first port that no Node has and that the host can bind.
unfoldable pub first_free : (ℕ → Bool) → HashMap ℕ Text → List ℕ → Result ℕ
first_free bindable assigned [] = err resource_exhausted
first_free bindable assigned (port ∷ rest) =
    let later = first_free bindable assigned rest in
    if HashMap.contains_key assigned port then later else if bindable port then ok port else later

-- `State::resolve_http_port`
unfoldable pub resolve_http_port : (ℕ → Bool) → State → ℕ → PortRange → Result ℕ
unfolding iter first_free
resolve_http_port bindable s requested range =
    if requested == 0
    then first_free bindable s.http_ports (iter range)
    else if HashMap.contains_key s.http_ports requested
    then err already_exists
    else if bindable requested
    then ok requested
    else err failed_precondition
