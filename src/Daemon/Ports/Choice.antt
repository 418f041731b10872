-- ===== src/Daemon/Ports/Choice.antt =====
-- Which port `resolve_http_port` chooses.
use nvnmos.Common.{
  nat_Eq, text_Eq, Text, ℕ, zero, suc, ◌+◌, ◌-◌, ◌≤◌, ◌<◌, ◌≡◌, inl, inr, Bool, true, none, arith,
  nat_eq, Bool-cases,
}
use nvnmos.HashMap
use nvnmos.HashMap.{count, HashMap}
use nvnmos.Daemon.Status.{Code, ok, err}
use nvnmos.Daemon.State.{State}
use nvnmos.Daemon.Ports.{ports_from, first_free, resolve_http_port, PortRange}

-- The port is free in the daemon and on the host.
abbrev pub IsFree : (ℕ → Bool) → HashMap ℕ Text → ℕ → Type 0
IsFree bindable assigned port = (HashMap.get assigned port ≡ none) × (bindable port ≡ true)

first_free-IsFree :
    (bindable : ℕ → Bool) (assigned : HashMap ℕ Text) (lo count port : ℕ)
    → first_free bindable assigned (ports_from lo count) ≡ ok port
    → IsFree bindable assigned port × (lo ≤ port) × (port < lo + count)
unfolding first_free ports_from
first_free-IsFree bindable assigned lo zero port h = cc
first_free-IsFree bindable assigned lo (suc count) port h =
    ground (arith, first_free-IsFree bindable assigned (lo + 1) count port)

first_free-none :
    (bindable : ℕ → Bool) (assigned : HashMap ℕ Text) (lo count port : ℕ) (c : Code)
    → first_free bindable assigned (ports_from lo count) ≡ err c
    → lo ≤ port
    → port < lo + count
    → ¬ IsFree bindable assigned port
unfolding first_free ports_from
first_free-none bindable assigned lo zero port c h p q f = absurd (omega arith)
first_free-none bindable assigned lo (suc count) port c h p q f =
    elim (Bool-cases (nat_eq lo port)) [
      | inl e ↦ ground arith
      | inr e ↦
          first_free-none bindable assigned (lo + 1) count port c (ground arith) (ground arith)
            (omega arith) f
    ]

-- The ports that a request allows: the one asked for, or those of the range when it asks for none.
abbrev pub Allowed : ℕ → PortRange → ℕ → Type 0
Allowed zero range port = (range.min ≤ port) × (port ≤ range.max)
Allowed (suc n) range port = port ≡ suc n

-- A port that is resolved is one that the request allows, no Node has it, and the host can bind it.
pub resolve_http_port-IsFree :
    (bindable : ℕ → Bool) (s : State) (requested : ℕ) (range : PortRange) (port : ℕ)
    → resolve_http_port bindable s requested range ≡ ok port
    → IsFree bindable s.http_ports port × Allowed requested range port
unfolding resolve_http_port
resolve_http_port-IsFree bindable s zero range port h =
    ground
      (arith, first_free-IsFree bindable s.http_ports range.min (range.max + 1 - range.min) port)
resolve_http_port-IsFree bindable s (suc n) range port h = ground arith

-- A request is refused only if no port that it allows is free.
pub resolve_http_port_refuses :
    (bindable : ℕ → Bool) (s : State) (requested : ℕ) (range : PortRange) (c : Code) (port : ℕ)
    → resolve_http_port bindable s requested range ≡ err c
    → Allowed requested range port
    → ¬ IsFree bindable s.http_ports port
unfolding resolve_http_port
resolve_http_port_refuses bindable s zero range c port h a f =
    first_free-none bindable s.http_ports range.min (range.max + 1 - range.min) port c h a.0
      (omega arith) f
resolve_http_port_refuses bindable s (suc n) range c port h a f = ground arith
