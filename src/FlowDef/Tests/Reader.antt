-- ===== src/FlowDef/Tests/Reader.antt =====
-- A reader that finds in a document what it carries.
use nvnmos.Common.{
  nat_Eq, text_Eq, Text, codes, ◌≡◌, refl, true, ◌&&◌, Option, none, some, if◌then◌else◌,
}
use nvnmos.FlowDef.Json.{ℤ, JsonLib}
use nvnmos.FlowDef.Read.{and_then}
use nvnmos.FlowDef.Caps.Parse.{RawRational, RawFlowDefForCaps}
use nvnmos.FlowDef.Caps.Document.{CarriesText, CarriesInt, CarriesRate, fits, Deserialises}

infixl 5 ◌>>=◌
abbrev ◌>>=◌ {ℓ κ} : {A : Type ℓ} {B : Type κ} → Option A → (A → Option B) → Option B
m >>= f = and_then m f

-- What a reader makes of a field that may be missing.
abbrev optional {ℓ κ} : {A : Type ℓ} {B : Type κ} → (A → Option B) → Option A → Option (Option B)
optional f none = some none
optional f (some a) = and_then (f a) (λ b. some (some b))

module _ (j : JsonLib) where
  open j use {Value, Object, get, as_str, as_i64, as_object, from_str, to_string, object}

  abbrev text_at : Object → Text → Option (Option Text)
  text_at o k = optional as_str (get o k)

  abbrev int_at : Object → Text → Option (Option ℤ)
  int_at o k = optional as_i64 (get o k)

  abbrev rate_of : Value → Option RawRational
  rate_of v = do
    d ← as_object v
    n ← and_then (get d (codes "numerator")) as_i64
    m ← and_then (get d (codes "denominator")) as_i64
    some (record { numerator = n; denominator = m })

  abbrev rate_at : Object → Text → Option (Option RawRational)
  rate_at o k = optional rate_of (get o k)

  abbrev raw_of : Object → Option RawFlowDefForCaps
  raw_of o = do
    media_type ← text_at o (codes "media_type")
    grain_rate ← rate_at o (codes "grain_rate")
    sample_rate ← rate_at o (codes "sample_rate")
    frame_width ← int_at o (codes "frame_width")
    frame_height ← int_at o (codes "frame_height")
    channel_count ← int_at o (codes "channel_count")
    interlace_mode ← text_at o (codes "interlace_mode")
    if fits j frame_width && fits j frame_height && fits j channel_count
        then some (record {
          media_type = media_type;
          grain_rate = grain_rate;
          sample_rate = sample_rate;
          frame_width = frame_width;
          frame_height = frame_height;
          channel_count = channel_count;
          interlace_mode = interlace_mode;
        })
        else none

  abbrev pub deserialise : Text → Option RawFlowDefForCaps
  deserialise t = and_then (from_str t) (λ v. and_then (as_object v) raw_of)

  text_at_lem :
      (o : Object) (k : Text) (t : Option Text) → CarriesText j o k t → text_at o k ≡ some t
  text_at_lem o k none h = rw h refl
  text_at_lem o k (some t) (v, g, e) = rw (g, e) refl

  int_at_lem : (o : Object) (k : Text) (n : Option ℤ) → CarriesInt j o k n → int_at o k ≡ some n
  int_at_lem o k none h = rw h refl
  int_at_lem o k (some t) (v, g, e) = rw (g, e) refl

  rate_at_lem :
      (o : Object) (k : Text) (r : Option RawRational) → CarriesRate j o k r → rate_at o k ≡ some r
  rate_at_lem o k none h = rw h refl
  rate_at_lem o k (some r) (v, d, g, e, (a, p, q), (b, x, y)) = rw (g, e, p, q, x, y) refl

  pub deserialise-Deserialises : ((v : Value) → j.is_exact v ≡ true) → Deserialises j deserialise
  deserialise-Deserialises exact o r c =
      rw
        (
          j.from_str-to_string (object o) (exact (object o)),
          j.as_object-object o,
          text_at_lem o _ _ (c.media_type),
          rate_at_lem o _ _ (c.grain_rate),
          rate_at_lem o _ _ (c.sample_rate),
          int_at_lem o _ _ (c.frame_width),
          int_at_lem o _ _ (c.frame_height),
          int_at_lem o _ _ (c.channel_count),
          text_at_lem o _ _ (c.interlace_mode),
          c.width_fits,
          c.height_fits,
          c.count_fits,
        )
        refl
