-- ===== src/FlowDef/Types.antt =====
-- The enums of rust/gst-nmos-rs/src/types.rs, src/domain.rs and src/flow_def.rs.
use nvnmos.Common.{
  Eq, ◌==◌, nat_Eq, text_Eq, Text, codes, ◌≡◌, refl, ◌↔◌, ◌⊎◌, inl, inr, Bool, true, false, Option,
  none, some, arith, if◌then◌else◌,
}

pub data CapsMode : Type 0 where
  auto constrained unconstrained : CapsMode

pub data FlowFormat : Type 0 where
  unspecified video audio data_format : FlowFormat

abbrev pub flow_format_eq : FlowFormat → FlowFormat → Bool
flow_format_eq unspecified unspecified = true
flow_format_eq video video = true
flow_format_eq audio audio = true
flow_format_eq data_format data_format = true
flow_format_eq _ _ = false

pub flow_format_eq_iff : (a b : FlowFormat) → (flow_format_eq a b ≡ true) ↔ (a ≡ b)
flow_format_eq_iff a b = ground arith

instance abbrev pub flow_format_Eq : Eq FlowFormat
flow_format_Eq = record { same = flow_format_eq; decides = flow_format_eq_iff }

-- `FlowFormat::as_format_urn`
unfoldable pub as_format_urn : FlowFormat → Option Text
as_format_urn unspecified = none
as_format_urn video = some (codes "urn:x-nmos:format:video")
as_format_urn audio = some (codes "urn:x-nmos:format:audio")
as_format_urn data_format = some (codes "urn:x-nmos:format:data")

-- `FlowFormat::from_format_urn`
unfoldable pub from_format_urn : Text → FlowFormat
from_format_urn s =
    if s == codes "urn:x-nmos:format:video"
    then video
    else if s == codes "urn:x-nmos:format:audio"
    then audio
    else if s == codes "urn:x-nmos:format:data"
    then data_format
    else unspecified

pub data DomainId : Type 0 where
  concrete : Text → DomainId
  application_resolved : DomainId

-- `FlowDefError`, of which `MissingCapsField` has lost its hint.
pub data FlowDefError : Type 0 where
  parse : FlowDefError
  unknown_format : Text → FlowDefError
  id_mismatch : Text → Text → FlowDefError
  format_mismatch : FlowFormat → FlowFormat → FlowDefError
  not_an_object tags_not_an_object missing_name empty_caps : FlowDefError
  unsupported_caps : Text → FlowDefError
  missing_caps_field : Text → Text → FlowDefError
  unsupported_caps_value : Text → Text → Text → FlowDefError
  invalid_domain_id_tag : FlowDefError

-- `Result<A, FlowDefError>`
pub data Parsed {ℓ} (A : Type ℓ) : Type ℓ where
  ok : A → Parsed A
  err : FlowDefError → Parsed A

infixl 5 ◌>>=◌ ◌>>◌
abbrev pub ◌>>=◌ {ℓ κ} : {A : Type ℓ} {B : Type κ} → Parsed A → (A → Parsed B) → Parsed B
ok a >>= f = f a
err c >>= f = err c

abbrev pub ◌>>◌ {ℓ} : {B : Type ℓ} → Parsed (Unit {0}) → Parsed B → Parsed B
m >> k = m >>= λ _. k

abbrev pub ok_or {ℓ} : {A : Type ℓ} → Option A → FlowDefError → Parsed A
ok_or none c = err c
ok_or (some a) c = ok a

pub Parsed-cases {ℓ} :
    {A : Type ℓ} (r : Parsed A) → ((c : FlowDefError) × (r ≡ err c)) ⊎ ((a : A) × (r ≡ ok a))
Parsed-cases (ok a) = inr (a, refl)
Parsed-cases (err c) = inl (c, refl)

pub data ValueOrigin : Type 0 where
  property file both none_given : ValueOrigin
