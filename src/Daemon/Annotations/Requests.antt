-- ===== src/Daemon/Annotations/Requests.antt =====
-- Which annotations a client can send: `decode_annotation_update` of rust/nvnmosd/src/main.rs.
use nvnmos.Common.{
  ◌==◌, ==_iff, nat_Eq, text_Eq, Text, ℕ, ◌≡◌, refl, sym, ap, ◌≢◌, ◌↔◌, ◌⊎◌, inl, inr, false,
  Option, some, List, [], ◌∷◌, arith, Bool-cases, is_some, any,
}
use nvnmos.Wrapper.{Update, AnnotationTag, Annotation}
use nvnmos.Daemon.Status.{Result-cases, invalid_argument, ok, err}
use nvnmos.Daemon.AnnotationStore.{read_only_tag}
use nvnmos.Daemon.Annotations.Messages.{
  proto_update, decode_update, or_empty, proto_tags, proto_annotation, is_unchanged, is_set,
  decode_tags, when_set, decode_annotation_update, ProtoAnnotationTag, ProtoAnnotation,
}

-- Each tag says something, under a key of its own that may be written.
abbrev pub AreWritable : List Text → List AnnotationTag → Type 0
AreWritable seen [] = Unit {0}
AreWritable seen (tag ∷ tags) =
    (is_unchanged tag.values_update ≡ false)
    × (tag.key ≢ [])
    × (any (λ k. k == tag.key) seen ≡ false)
    × (read_only_tag tag.key ≡ false)
    × AreWritable (tag.key ∷ seen) tags

-- A value is there exactly for a field that is set.
pub record IsRequest (a : Annotation) : Type 0 where
  pub label : is_some a.label ≡ is_set a.label_update
  pub description : is_some a.description ≡ is_set a.description_update
  pub tags_set : is_set a.tags_update ≡ false → a.tags ≡ []
  pub writable : AreWritable [] a.tags

decode-proto_update : (u : Update) → decode_update (proto_update u) ≡ ok u
unfolding decode_update proto_update
decode-proto_update Update.unchanged = refl
decode-proto_update Update.set = refl
decode-proto_update Update.reset = refl

decode_tag-AreWritable :
    (seen : List Text) (tag : ProtoAnnotationTag) (tags : List ProtoAnnotationTag)
    (decoded : List AnnotationTag)
    → ((rest : List AnnotationTag)
        → decode_tags (tag.key ∷ seen) tags ≡ ok rest
        → AreWritable (tag.key ∷ seen) rest)
    → (update : Update) → is_unchanged update ≡ false
    → decode_update tag.values_update ≡ ok update
    → decode_tags seen (tag ∷ tags) ≡ ok decoded
    → AreWritable seen decoded
unfolding decode_tags
decode_tag-AreWritable seen tag tags decoded ih update says u h =
    elim (Result-cases (decode_tags (tag.key ∷ seen) tags)) [
      | inl (c, r) ↦ absurd (ground (arith, u, r))
      | inr (rest, r) ↦
          let whole : decoded
              ≡ record { key = tag.key; values_update = update; values = tag.values } ∷ rest =
            ground (arith, u, r) in
          rw whole (
            says,
            ground (arith, u, r, ==_iff tag.key []),
            ground (arith, u, r),
            ground (arith, u, r),
            ih rest r,
          )
    ]

decode_tags-AreWritable :
    (seen : List Text) (tags : List ProtoAnnotationTag) (decoded : List AnnotationTag)
    → decode_tags seen tags ≡ ok decoded
    → AreWritable seen decoded
unfolding decode_tags
decode_tags-AreWritable seen [] [] h = tt
decode_tags-AreWritable seen [] (t ∷ ts) h = absurd (ground arith)
decode_tags-AreWritable seen (tag ∷ tags) decoded h =
    elim (Result-cases (decode_update tag.values_update)) [
      | inl (c, u) ↦ absurd (ground (arith, u))
      | inr (Update.unchanged, u) ↦ decode_tags-AreWritable seen tags decoded (ground (arith, u))
      | inr (Update.set, u) ↦
          decode_tag-AreWritable seen tag tags decoded
            (λ rest r. decode_tags-AreWritable (tag.key ∷ seen) tags rest r) Update.set refl u h
      | inr (Update.reset, u) ↦
          decode_tag-AreWritable seen tag tags decoded
            (λ rest r. decode_tags-AreWritable (tag.key ∷ seen) tags rest r) Update.reset refl u h
    ]

decode_tags-proto_tags :
    (seen : List Text) (tags : List AnnotationTag)
    → AreWritable seen tags
    → decode_tags seen (proto_tags tags) ≡ ok tags
unfolding decode_tags proto_tags
decode_tags-proto_tags seen [] w = refl
decode_tags-proto_tags seen (tag ∷ tags) w = ground (
  arith,
  decode-proto_update tag.values_update,
  ==_iff tag.key [],
  decode_tags-proto_tags (tag.key ∷ seen) tags,
)

decode_update-cases :
    (raw : ℕ)
    → (decode_update raw ≡ err invalid_argument) ⊎ ((u : Update) × (decode_update raw ≡ ok u))
unfolding decode_update
decode_update-cases raw = elim (Result-cases (decode_update raw)) [
  | inl (c, e) ↦ inl (ground arith)
  | inr r ↦ inr r
]

when_set-is_set : (u : Update) (t : Text) → is_some (when_set u t) ≡ is_set u
when_set-is_set Update.unchanged t = refl
when_set-is_set Update.set t = refl
when_set-is_set Update.reset t = refl

when_set-or_empty :
    (u : Update) (t : Option Text) → is_some t ≡ is_set u → when_set u (or_empty t) ≡ t
when_set-or_empty Update.unchanged t h = ground arith
when_set-or_empty Update.set t h = ground arith
when_set-or_empty Update.reset t h = ground arith

decoded_as :
    ProtoAnnotation → (label description tags_update : Update) → List AnnotationTag → Annotation
decoded_as p label description tags_update tags = record {
  label_update = label;
  label = when_set label p.label;
  description_update = description;
  description = when_set description p.description;
  tags_update = tags_update;
  tags = tags;
}

decoded_as-IsRequest :
    (p : ProtoAnnotation) (label description tags_update : Update) (tags : List AnnotationTag)
    → (is_set tags_update ≡ false → tags ≡ [])
    → AreWritable [] tags
    → IsRequest (decoded_as p label description tags_update tags)
unfolding decoded_as
decoded_as-IsRequest p label description tags_update tags e w = record {
  label = when_set-is_set label p.label;
  description = when_set-is_set description p.description;
  tags_set = e;
  writable = w;
}

decode_annotation_update-IsRequest :
    (p : ProtoAnnotation) (a : Annotation) → decode_annotation_update (some p) ≡ ok a → IsRequest a
unfolding decode_annotation_update decoded_as
decode_annotation_update-IsRequest p a h = elim (Result-cases (decode_update p.label_update)) [
  | inl (c, l) ↦ absurd (ground (arith, l))
  | inr (label, l) ↦ elim (Result-cases (decode_update p.description_update)) [
    | inl (c, d) ↦ absurd (ground (arith, l, d))
    | inr (description, d) ↦ elim (Result-cases (decode_update p.tags_update)) [
      | inl (c, t) ↦ absurd (ground (arith, l, d, t))
      | inr (update, t) ↦ elim (Bool-cases (is_set update)) [
        | inr n ↦
            let whole : a ≡ decoded_as p label description update [] = ground (arith, l, d, t, n) in
            rw whole (decoded_as-IsRequest p label description update [] (λ _. refl) tt)
        | inl n ↦ elim (Result-cases (decode_tags [] p.tags)) [
          | inl (c, r) ↦ absurd (ground (arith, l, d, t, n, r))
          | inr (tags, r) ↦
              let whole : a ≡ decoded_as p label description update tags =
                ground (arith, l, d, t, n, r) in
              rw whole (
                decoded_as-IsRequest p label description update tags (λ m. absurd (ground arith))
                  (decode_tags-AreWritable [] p.tags tags r))
        ]
      ]
    ]
  ]
]

decode-proto_annotation :
    (a : Annotation)
    → IsRequest a
    → decode_annotation_update (some (proto_annotation (some a))) ≡ ok a
unfolding decode_annotation_update proto_annotation
decode-proto_annotation a r =
    rw
      (
        decode-proto_update a.label_update,
        decode-proto_update a.description_update,
        decode-proto_update a.tags_update,
      )
      (elim (Bool-cases (is_set a.tags_update)) [
        | inl n ↦ rw n (
            rw
              (
                decode_tags-proto_tags [] a.tags (r.writable),
                when_set-or_empty a.label_update a.label (r.label),
                when_set-or_empty a.description_update a.description (r.description),
              )
              refl)
        | inr n ↦
            rw
              (
                n,
                when_set-or_empty a.label_update a.label (r.label),
                when_set-or_empty a.description_update a.description (r.description),
              )
              (ap (λ (tags : List AnnotationTag). ok (record a { tags = tags }))
                (sym (r.tags_set n)))
      ])

-- An annotation is what the handler makes of some message exactly when it is a request: it puts values
-- only to the fields that it sets, and names each tag that it writes or resets once, by a key that is
-- not empty and may be written. And the message that sends an annotation is accepted, and read as that
-- annotation, exactly when the annotation is a request.
pub decode_annotation_update-proto_annotation :
    (a : Annotation)
    → (((p : ProtoAnnotation) × (decode_annotation_update (some p) ≡ ok a)) ↔ IsRequest a)
      × ((decode_annotation_update (some (proto_annotation (some a))) ≡ ok a) ↔ IsRequest a)
decode_annotation_update-proto_annotation a =
    let sent = proto_annotation (some a) in
    (
      (
        λ (p, h). decode_annotation_update-IsRequest p a h,
        λ r. (sent, decode-proto_annotation a r),
      ),
      (λ h. decode_annotation_update-IsRequest sent a h, λ r. decode-proto_annotation a r),
    )
