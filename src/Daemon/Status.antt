-- ===== src/Daemon/Status.antt =====
-- The gRPC status codes that the daemon answers with (tonic's `Status`, of which only the code is
-- modelled), and methods that return a status beside the state that they leave.
use nvnmos.Common.{nat_Eq, text_Eq, ◌≡◌, refl, ◌⊎◌, inl, inr, Option, none, some}

pub data Code : Type 0 where
  invalid_argument not_found already_exists failed_precondition : Code
  resource_exhausted unavailable internal unknown : Code

pub data Result {ℓ} (A : Type ℓ) : Type ℓ where
  ok : A → Result A
  err : Code → Result A

infixl 5 ◌>>=◌ ◌>>◌
abbrev pub ◌>>=◌ {ℓ κ} : {A : Type ℓ} {B : Type κ} → Result A → (A → Result B) → Result B
ok a >>= f = f a
err c >>= f = err c

abbrev pub ◌>>◌ {ℓ} : {B : Type ℓ} → Result (Unit {0}) → Result B → Result B
m >> k = m >>= λ _. k

-- `Option::ok_or_else`
abbrev pub ok_or {ℓ} : {A : Type ℓ} → Option A → Code → Result A
ok_or none c = err c
ok_or (some a) c = ok a

pub Result-cases {ℓ} :
    {A : Type ℓ} (r : Result A) → ((c : Code) × (r ≡ err c)) ⊎ ((a : A) × (r ≡ ok a))
Result-cases (ok a) = inr (a, refl)
Result-cases (err c) = inl (c, refl)
