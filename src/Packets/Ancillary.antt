-- ===== src/Packets/Ancillary.antt =====
-- Ancillary data is grouped by frames: `anc_from_caps` and `with_st2038_frame_alignment` of
-- rust/gst-nmos-rs/src/nvdsudp/packetization.rs.
use nvnmos.Common.{
  ◌==◌, ==_iff, ==_refl, nat_Eq, text_Eq, Text, codes, ◌≡◌, refl, ap, ◌∙◌, ◌⊎◌, inl, inr, Option,
  none, some, Bool-cases, Option-cases,
}
use nvnmos.FlowDef.Caps.{GstLib}
use nvnmos.Packets.{anc_from_caps, with_st2038_frame_alignment}

module _ (g : GstLib) where
  open g use {Structure, structure_name, get_string}

  abbrev alignment : Text
  alignment = codes "alignment"

  abbrev frame : Text
  frame = codes "frame"

  -- Filling in the alignment changes nothing of what is accepted, and caps that are accepted are
  -- grouped by frames after it.
  pub anc_from_caps-with_st2038_frame_alignment :
      (caps : Option Structure)
      → (anc_from_caps g (with_st2038_frame_alignment g caps) ≡ anc_from_caps g caps)
        × ((anc_from_caps g caps ≡ none)
            ⊎ ((s : Structure) × (with_st2038_frame_alignment g caps ≡ some s)
                × (get_string s alignment ≡ some frame)))
  unfolding anc_from_caps with_st2038_frame_alignment
  anc_from_caps-with_st2038_frame_alignment none = (refl, inl refl)
  anc_from_caps-with_st2038_frame_alignment (some s) =
      elim (Bool-cases (structure_name s == codes "meta/x-st-2038")) [
        | inr n ↦ rw n (rw (n, anc_from_caps) (refl, inl refl))
        | inl n ↦ elim (Option-cases (get_string s alignment)) [
          | inl a ↦
              let filled : get_string (g.set_string s alignment frame) alignment ≡ some frame =
                rw (g.get_string-set_string s alignment frame alignment, ==_refl alignment) refl in
              rw (n, a)
                (
                  rw
                      (
                        anc_from_caps,
                        g.structure_name-set_string s alignment frame,
                        n,
                        filled,
                        ==_refl frame,
                      )
                      refl,
                  inr (g.set_string s alignment frame, refl, filled),
                )
          | inr (t, a) ↦ elim (Bool-cases (t == frame)) [
            | inl q ↦
                rw (n, a)
                  (rw (n, a, q, anc_from_caps)
                    (refl, inr (s, refl, a ∙ ap some ((==_iff t frame).0 q))))
            | inr q ↦ rw (n, a) (rw (n, a, q, anc_from_caps) (refl, inl refl))
          ]
        ]
      ]
