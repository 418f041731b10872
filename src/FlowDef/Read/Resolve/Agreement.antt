-- ===== src/FlowDef/Read/Resolve/Agreement.antt =====
-- A property and a file agree, or one of them is silent.
use nvnmos.Common.{
  ◌==◌, ==_iff, nat_Eq, text_Eq, Text, ◌≡◌, refl, sym, ap, ◌↔◌, ◌⊎◌, inl, inr, Option, none, some,
  [], ◌∷◌, arith, Bool-cases,
}
use nvnmos.FlowDef.Types.{
  flow_format_Eq, Parsed-cases, FlowFormat, ValueOrigin, unspecified, video, audio, data_format, ok,
  property, file, both, none_given,
}
use nvnmos.FlowDef.Read.Resolve.{
  resolve_id, resolve_format, file_meta, id_in, format_in, resolve_mxl_flow_meta, RawFlowDef,
  FlowDefMeta, FlowResolution,
}

-- The property and the file do not contradict each other on the id, and on the format.
abbrev pub IdsAgree : Text → Option Text → Type 0
IdsAgree p none = Unit {0}
IdsAgree p (some f) = (p ≡ []) ⊎ ((f ≡ []) ⊎ (p ≡ f))

abbrev pub FormatsAgree : FlowFormat → FlowFormat → Type 0
FormatsAgree p f = (p ≡ unspecified) ⊎ ((f ≡ unspecified) ⊎ (p ≡ f))

-- The property, or else the file.
abbrev pub first_id : Text → Option Text → Text
first_id [] none = []
first_id [] (some f) = f
first_id (c ∷ p) f = c ∷ p

abbrev pub first_format : FlowFormat → FlowFormat → FlowFormat
first_format unspecified f = f
first_format p f = p

resolve_id_iff :
    (p : Text) (f : Option Text) (id : Text)
    → ((o : ValueOrigin) × (resolve_id p f ≡ ok (id, o))) ↔ (IdsAgree p f × (id ≡ first_id p f))
unfolding resolve_id
resolve_id_iff [] none id = (λ (o, h). (tt, ground arith), λ (a, e). (none_given, rw e refl))
resolve_id_iff [] (some []) id =
    (λ (o, h). (inl refl, ground arith), λ (a, e). (none_given, rw e refl))
resolve_id_iff [] (some (c ∷ f)) id =
    (λ (o, h). (inl refl, ground arith), λ (a, e). (file, rw e refl))
resolve_id_iff (c ∷ p) none id = (λ (o, h). (tt, ground arith), λ (a, e). (property, rw e refl))
resolve_id_iff (c ∷ p) (some []) id =
    (λ (o, h). (inr (inl refl), ground arith), λ (a, e). (property, rw e refl))
resolve_id_iff (c ∷ p) (some (d ∷ f)) id = elim (Bool-cases (d ∷ f == c ∷ p)) [
  | inl s ↦
      let q = (==_iff (d ∷ f) (c ∷ p)).0 s in
      (
        λ (o, h). (inr (inr (sym q)), ground (arith, s)),
        λ (a, e). (both, rw (s, resolve_id) (rw e (ap (λ t. ok (t, both)) q))),
      )
  | inr s ↦ (
    λ (o, h). absurd (ground (arith, s)),
    λ (a, e). absurd (ground (arith, s, ==_iff (d ∷ f) (c ∷ p))),
  )
]

resolve_format_iff :
    (p f format : FlowFormat)
    → ((o : ValueOrigin) × (resolve_format p f ≡ ok (format, o)))
      ↔ (FormatsAgree p f × (format ≡ first_format p f))
unfolding resolve_format
resolve_format_iff unspecified unspecified format =
    (λ (o, h). (inl refl, ground arith), λ (a, e). (none_given, rw e refl))
resolve_format_iff unspecified video format =
    (λ (o, h). (inl refl, ground arith), λ (a, e). (file, rw e refl))
resolve_format_iff unspecified audio format =
    (λ (o, h). (inl refl, ground arith), λ (a, e). (file, rw e refl))
resolve_format_iff unspecified data_format format =
    (λ (o, h). (inl refl, ground arith), λ (a, e). (file, rw e refl))
resolve_format_iff video unspecified format =
    (λ (o, h). (inr (inl refl), ground arith), λ (a, e). (property, rw e refl))
resolve_format_iff video video format =
    (λ (o, h). (inr (inr refl), ground arith), λ (a, e). (both, rw e refl))
resolve_format_iff video audio format =
    (λ (o, h). absurd (ground arith), λ (a, e). absurd (ground arith))
resolve_format_iff video data_format format =
    (λ (o, h). absurd (ground arith), λ (a, e). absurd (ground arith))
resolve_format_iff audio unspecified format =
    (λ (o, h). (inr (inl refl), ground arith), λ (a, e). (property, rw e refl))
resolve_format_iff audio video format =
    (λ (o, h). absurd (ground arith), λ (a, e). absurd (ground arith))
resolve_format_iff audio audio format =
    (λ (o, h). (inr (inr refl), ground arith), λ (a, e). (both, rw e refl))
resolve_format_iff audio data_format format =
    (λ (o, h). absurd (ground arith), λ (a, e). absurd (ground arith))
resolve_format_iff data_format unspecified format =
    (λ (o, h). (inr (inl refl), ground arith), λ (a, e). (property, rw e refl))
resolve_format_iff data_format video format =
    (λ (o, h). absurd (ground arith), λ (a, e). absurd (ground arith))
resolve_format_iff data_format audio format =
    (λ (o, h). absurd (ground arith), λ (a, e). absurd (ground arith))
resolve_format_iff data_format data_format format =
    (λ (o, h). (inr (inr refl), ground arith), λ (a, e). (both, rw e refl))

-- A flow resolves to an id and a format just when what the file holds agrees with the properties, and
-- they are the property's, or where the property is unset, the file's.
pub resolve_mxl_flow_meta_iff :
    (deserialise : Text → Option RawFlowDef) (property_id : Text) (property_format : FlowFormat)
    (text : Option Text) (id : Text) (format : FlowFormat) (m : Option FlowDefMeta)
    → file_meta deserialise text ≡ ok m
    → ((r : FlowResolution) × (resolve_mxl_flow_meta deserialise property_id property_format text
          ≡ ok r)
        × (r.id ≡ id)
        × (r.format ≡ format))
      ↔ (IdsAgree property_id (id_in m)
          × FormatsAgree property_format (format_in m)
          × (id ≡ first_id property_id (id_in m))
          × (format ≡ first_format property_format (format_in m)))
unfolding resolve_mxl_flow_meta
resolve_mxl_flow_meta_iff deserialise property_id property_format text id format m h =
    let ids = resolve_id_iff property_id (id_in m) in
    let formats = resolve_format_iff property_format (format_in m) in
    (
      λ (r, q, e, k). elim (Parsed-cases (resolve_id property_id (id_in m))) [
        | inl (c, x) ↦ absurd (ground (arith, h, x))
        | inr ((i, o), x) ↦ elim (Parsed-cases (resolve_format property_format (format_in m))) [
          | inl (c, y) ↦ absurd (ground (arith, h, x, y))
          | inr ((f, n), y) ↦
              let same : ok (record { id = i; id_origin = o; format = f; format_origin = n })
                  ≡ ok r =
                ground (arith, h, x, y) in
              let (a, g) = (ids i).0 (o, x) in
              let (b, l) = (formats f).0 (n, y) in
              (a, b, ground (arith, same, g, e), ground (arith, same, l, k))
        ]
      ],
      λ (a, b, e, k).
          let (o, x) = (ids id).1 (a, e) in
          let (n, y) = (formats format).1 (b, k) in
          (
            record { id = id; id_origin = o; format = format; format_origin = n },
            rw (h, x, y) refl,
            refl,
            refl,
          ),
    )
