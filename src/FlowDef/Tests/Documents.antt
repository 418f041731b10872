-- ===== src/FlowDef/Tests/Documents.antt =====
-- A flow definition that is built from caps, spliced into and read back.
use nvnmos.Common.{
  nat_Eq, text_Eq, text_eq, Text, codes, ◌≡◌, refl, ◌↔◌, Option, none, some, [], ◌∷◌,
}
use nvnmos.FlowDef.Json.{pos}
use nvnmos.FlowDef.Types.{
  flow_format_Eq, Parsed, unconstrained, unspecified, video, concrete, application_resolved, ok,
  err,
}
use nvnmos.FlowDef.Splice.{splice_overrides, FlowDefOverrides}
use nvnmos.FlowDef.Overridden.{Overridden}
use nvnmos.FlowDef.Read.Resolve.{
  file_meta, id_in, format_in, resolve_mxl_flow_meta, RawFlowDef, FlowDefMeta, FlowResolution,
}
use nvnmos.FlowDef.Read.Resolve.Agreement.{
  IdsAgree, FormatsAgree, first_id, first_format, resolve_mxl_flow_meta_iff,
}
use nvnmos.FlowDef.Caps.{GValue}
use nvnmos.FlowDef.Caps.Build.{from_caps, FlowDefBuildInput}
use nvnmos.FlowDef.Caps.Parse.{caps_from}
use nvnmos.FlowDef.Caps.Essence.{caps_from-from_caps, SameEssence}
use nvnmos.FlowDef.Tests.Values.{texts}
use nvnmos.FlowDef.Tests.Structures.{fields}
use nvnmos.FlowDef.Tests.Reader.{deserialise, deserialise-Deserialises}
use nvnmos.FlowDef.Types
use nvnmos.FlowDef.Caps.Parse

abbrev captured : FlowDefBuildInput (fields.Structure)
captured = record {
  flow_id = codes "f";
  name = codes "n";
  mxl_domain_id = concrete (codes "d");
  label = codes "l";
  description = [];
  group_hint = [];
  caps = some (
    codes "video/x-raw",
    (codes "format", GValue.string (codes "v210"))
        ∷ (codes "width", GValue.int (pos 1920))
        ∷ (codes "height", GValue.int (pos 1080))
        ∷ (codes "framerate", GValue.fraction ((pos 50, pos 1), (refl, refl)))
        ∷ [],
  );
}

abbrev text_of : Parsed Text → Text
text_of (ok t) = t
text_of (err _) = []

abbrev document : Text
document = text_of (from_caps texts fields captured)

builds : from_caps texts fields captured ≡ Types.ok document
unfolding from_caps text_eq
builds = refl

caps_from-from_caps_example :
    (s t : fields.Structure) × (captured.caps ≡ some s)
    × (caps_from fields (deserialise texts) document ≡ Parse.ok t)
    × SameEssence fields s t
caps_from-from_caps_example =
    caps_from-from_caps fields texts (deserialise texts)
      (deserialise-Deserialises texts (λ v. refl)) captured document builds

abbrev renamed : FlowDefOverrides
renamed = record {
  flow_id = none;
  name = some (codes "m");
  label = some (codes "k");
  description = none;
  group_hint = some (codes "g");
  mxl_domain_id = some application_resolved;
  caps_mode = unconstrained;
}

abbrev spliced : Text
spliced = text_of (splice_overrides texts document renamed)

abbrev read_flow : Text → Option RawFlowDef
read_flow t = some (record { id = some t; format = some (codes "urn:x-nmos:format:video") })

abbrev from_file : Option FlowDefMeta
from_file = some (record { id = codes "f"; format = video })

reads : file_meta read_flow (some (codes "f")) ≡ ok from_file
unfolding file_meta text_eq
reads = refl

resolve_mxl_flow_meta_iff_example :
    ((r : FlowResolution) × (resolve_mxl_flow_meta read_flow
          (codes "f")
          unspecified
          (some (codes "f"))
        ≡ ok r)
      × (r.id ≡ codes "f")
      × (r.format ≡ video))
    ↔ (IdsAgree (codes "f") (id_in from_file)
        × FormatsAgree unspecified (format_in from_file)
        × (codes "f" ≡ first_id (codes "f") (id_in from_file))
        × (video ≡ first_format unspecified (format_in from_file)))
resolve_mxl_flow_meta_iff_example =
    resolve_mxl_flow_meta_iff read_flow (codes "f") unspecified (some (codes "f")) (codes "f") video
      from_file reads
