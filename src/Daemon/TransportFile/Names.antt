-- ===== src/Daemon/TransportFile/Names.antt =====
-- Which name `transport_file_name` of rust/nvnmosd/src/state.rs finds in an SDP file.
use nvnmos.Common.{
  ◌==◌, nat_Eq, text_Eq, Text, starts_with, ℕ, ◌≡◌, refl, ap, ◌∙◌, Bool, true, false, ◌&&◌, not,
  Option, none, some, List, [], ◌∷◌, ◌++◌, arith, is_some, all,
}
use nvnmos.Wrapper.{rtp}
use nvnmos.Daemon.TransportFile.{
  lines, strip_prefix, media_prefix, name_prefix, session_level, first_name, transport_file_name,
}
use mathlib.Core.List.{reverse, reverse-reverse, reverse_aux}
use nvnmos.Daemon.TransportFile.{lines_from, drop_cr}

-- A line of text has no line feed and no carriage return.
abbrev is_text : ℕ → Bool
is_text c = not (c == 10) && not (c == 13)

-- A line ends with a line feed, after a carriage return if the flag says so.
abbrev pub ended : Text × Bool → Text → Text
ended (l, true) rest = l ++ 13 ∷ 10 ∷ rest
ended (l, false) rest = l ++ 10 ∷ rest

-- Lines with their ends: a file.
unfoldable pub render : List (Text × Bool) → Text → Text
render [] rest = rest
render (l ∷ ls) rest = ended l (render ls rest)

lines_from-append :
    (acc l rest : Text)
    → all is_text l ≡ true
    → lines_from acc (l ++ 10 ∷ rest) ≡ reverse (drop_cr (reverse_aux l acc)) ∷ lines_from [] rest
unfolding lines_from
lines_from-append acc [] rest h = refl
lines_from-append acc (c ∷ l) rest h = ground (arith, lines_from-append (c ∷ acc) l rest)

lines_from-append_cr :
    (acc l rest : Text)
    → all is_text l ≡ true
    → lines_from acc (l ++ 13 ∷ 10 ∷ rest) ≡ reverse (reverse_aux l acc) ∷ lines_from [] rest
unfolding lines_from drop_cr
lines_from-append_cr acc [] rest h = refl
lines_from-append_cr acc (c ∷ l) rest h = ground (arith, lines_from-append_cr (c ∷ acc) l rest)

drop_cr-clean : (l : Text) → all is_text l ≡ true → drop_cr l ≡ l
unfolding drop_cr
drop_cr-clean [] h = refl
drop_cr-clean (c ∷ l) h = ground arith

all-reverse_aux :
    (l acc : Text)
    → all is_text l ≡ true
    → all is_text acc ≡ true
    → all is_text (reverse_aux l acc) ≡ true
all-reverse_aux [] acc h k = k
all-reverse_aux (c ∷ l) acc h k = all-reverse_aux l (c ∷ acc) (ground arith) (ground arith)

lines-line :
    (l : Text) (cr : Bool) (rest : Text)
    → all is_text l ≡ true
    → lines (ended (l, cr) rest) ≡ l ∷ lines rest
unfolding lines
lines-line l true rest h =
    lines_from-append_cr [] l rest h ∙ ap (λ x. x ∷ lines_from [] rest) (reverse-reverse l)
lines-line l false rest h =
    lines_from-append [] l rest h
    ∙ ap (λ (x : Text). reverse x ∷ lines_from [] rest)
        (drop_cr-clean (reverse l) (all-reverse_aux l [] h refl))
    ∙ ap (λ x. x ∷ lines_from [] rest) (reverse-reverse l)

-- A line of the session part: it opens no media section, and gives no name.
unfoldable pub is_plain : Text → Bool
is_plain l =
    all is_text l && not (starts_with media_prefix l) && not (is_some (strip_prefix name_prefix l))

plain_skip :
    (l : Text) (ls : List Text)
    → is_plain l ≡ true
    → first_name (session_level (l ∷ ls)) ≡ first_name (session_level ls)
unfolding is_plain session_level first_name
plain_skip l ls h = ground arith

scan :
    (before : List (Text × Bool)) (rest : Text)
    → all (λ (l : Text × Bool). is_plain l.0) before ≡ true
    → first_name (session_level (lines (render before rest)))
      ≡ first_name (session_level (lines rest))
unfolding render
scan [] rest h = refl
scan ((l, cr) ∷ ls) rest h =
    ap (λ (x : List Text). first_name (session_level x))
      (lines-line l cr (render ls rest) (text (ground (arith, h))))
    ∙ plain_skip l (lines (render ls rest)) (ground (arith, h))
    ∙ scan ls rest (ground (arith, h))
  where
    text : is_plain l ≡ true → all is_text l ≡ true
    text p = unfold is_plain in ground arith

named :
    (name : Text) (ls : List Text)
    → first_name (session_level ((name_prefix ++ name) ∷ ls)) ≡ some name
unfolding first_name session_level strip_prefix starts_with
named name ls = refl

opens :
    (media : Text) (ls : List Text)
    → first_name (session_level ((media_prefix ++ media) ∷ ls)) ≡ none
unfolding first_name session_level starts_with
opens [] ls = refl
opens (c ∷ media) ls = refl

-- An SDP file is named by the first name line of its session part, whatever stands after it, and
-- whether each line ends with a line feed only or with a carriage return and a line feed.
pub transport_file_name-render :
    (tag : Text → Option Text) (before : List (Text × Bool)) (c : ℕ) (name : Text) (cr : Bool)
    (rest : Text)
    → all (λ (l : Text × Bool). is_plain l.0) before ≡ true
    → all is_text (c ∷ name) ≡ true
    → transport_file_name tag rtp (render before (ended (name_prefix ++ (c ∷ name), cr) rest))
      ≡ some (c ∷ name)
unfolding transport_file_name
transport_file_name-render tag before c name cr rest h k =
    rw
      (
        scan before (ended (name_prefix ++ (c ∷ name), cr) rest) h
            ∙ ap (λ (x : List Text). first_name (session_level x))
                (lines-line (name_prefix ++ (c ∷ name)) cr rest k)
            ∙ named (c ∷ name) (lines rest),
        transport_file_name,
      )
      refl

-- A name line in a media section does not count: an SDP file whose session part gives no name has
-- none.
pub transport_file_name_media :
    (tag : Text → Option Text) (before : List (Text × Bool)) (media : Text) (cr : Bool)
    (rest : Text)
    → all (λ (l : Text × Bool). is_plain l.0) before ≡ true
    → all is_text media ≡ true
    → transport_file_name tag rtp (render before (ended (media_prefix ++ media, cr) rest)) ≡ none
unfolding transport_file_name
transport_file_name_media tag before media cr rest h k =
    rw
      (
        scan before (ended (media_prefix ++ media, cr) rest) h
            ∙ ap (λ (x : List Text). first_name (session_level x))
                (lines-line (media_prefix ++ media) cr rest k)
            ∙ opens media (lines rest),
        transport_file_name,
      )
      refl
