-- ===== src/TestPrograms/FilterTest.antt =====
-- TestDirectShowFilter.cpp: it makes the virtual camera's filter, lists its pins and their media types.
-- What it writes to its log is left out but for the line of each media type.
pub mod Laws
use ps3eye_direct_show.Common.{
  ℕ, Bool, true, false, Option, none, some, List, [], ◌∷◌, if◌then◌else◌, not, is_null, unless_null,
  ◌&&◌,
}
use ps3eye_direct_show.Common.Com.{HResult, failed, succeeded}
use ps3eye_direct_show.Common.Int.{ℤ, abs}
use ps3eye_direct_show.DirectShow.Types.{MediaType, is_video_info}
use ps3eye_direct_show.TestPrograms.Objects.{
  com_library, graph, source_filter, pin_enumerator, type_enumerator, filter_pin, pin_filter,
  media_type, format_block, Use, took, gave, took_if, gave_if,
}

-- What a pin answers: its direction, whether QueryPinInfo names its filter, and the media types of its
-- enumerator, none where that is null.
pub record PinAnswers : Type 0 where
  pub is_output : Bool
  pub has_filter : Bool
  pub media_types : Option (List MediaType)

-- The pins of the first enumeration, none where it fails, and of the second, none where it hands out
-- null.
pub record Answers : Type 0 where
  pub initialize : HResult
  pub create_filter : HResult
  pub filter_info : HResult
  pub has_graph : Bool
  pub pins : Option (List PinAnswers)
  pub pins_again : Option (List PinAnswers)

-- Width, height and bits of each line on a media type, and the uses, the last one first.
pub record Log : Type 0 where
  pub shown : List (ℤ × ℕ × ℕ)
  pub uses : List Use

abbrev pub and_then : Option Log → (Log → Option Log) → Option Log
and_then none f = none
and_then (some l) f = f l

-- The first loop.
unfoldable pub list_pins : List PinAnswers → List Use → List Use
list_pins [] us = us
list_pins (p ∷ ps) us = list_pins ps (
    gave filter_pin
    ∷ gave_if p.has_filter pin_filter (took_if p.has_filter pin_filter (took filter_pin ∷ us)))

-- One turn of the loop on media types; none is the fault on a null format.
unfoldable pub show_type : MediaType → Log → Option Log
show_type mt l =
    let has_format = not (is_null mt.format) in
    let us =
      gave media_type
      ∷ gave_if has_format format_block
          (took_if has_format format_block (took media_type ∷ l.uses)) in
    if is_video_info mt.format_type
    then (unless_null mt.format none λ v.
        let h = v.bmi_header in
        some
          (record { shown = (h.bi_width, abs h.bi_height, h.bi_bit_count) ∷ l.shown; uses = us }))
    else some (record l { uses = us })

unfoldable pub show_types : List MediaType → Log → Option Log
unfolding show_type
show_types [] l = some l
show_types (mt ∷ mts) l = and_then (show_type mt l) λ k. show_types mts k

-- The media types of an output pin.
unfoldable pub show_output : PinAnswers → Log → Option Log
unfolding show_types
show_output p l =
    if p.is_output
    then (unless_null p.media_types (some l) λ mts.
        and_then (show_types mts (record l { uses = took type_enumerator ∷ l.uses }))
          λ k. some (record k { uses = gave type_enumerator ∷ k.uses }))
    else some l

-- The second loop.
unfoldable pub show_pins : List PinAnswers → Log → Option Log
unfolding show_output
show_pins [] l = some l
show_pins (p ∷ ps) l =
    let us = took_if p.has_filter pin_filter (took filter_pin ∷ l.uses) in
    and_then (show_output p (record l { uses = us })) λ k.
      show_pins ps (record k { uses = gave filter_pin ∷ gave_if p.has_filter pin_filter k.uses })

abbrev pub list_all : Option (List PinAnswers) → List Use → List Use
list_all none us = us
list_all (some ps) us = gave pin_enumerator ∷ list_pins ps (took pin_enumerator ∷ us)

abbrev pub show_all : Option (List PinAnswers) → Log → Option Log
show_all none l = some l
show_all (some ps) l =
    and_then (show_pins ps (record l { uses = took pin_enumerator ∷ l.uses }))
      λ k. some (record k { uses = gave pin_enumerator ∷ k.uses })

-- From the filter on.
unfoldable pub examine : Answers → List Use → Option (ℕ × Log)
examine a us =
    let named = succeeded a.filter_info && a.has_graph in
    let us₁ = list_all a.pins (gave_if named graph (took_if named graph us)) in
    elim (show_all a.pins_again (record { shown = []; uses = us₁ })) [
      | none ↦ none
      | some l ↦ some (0, record l { uses = gave com_library ∷ gave source_filter ∷ l.uses })
    ]

-- The exit code and the log; none is the fault on a null format.
unfoldable pub main : Answers → Option (ℕ × Log)
unfolding examine
main a =
    if failed a.initialize
    then some (1, record { shown = []; uses = [] })
    else if failed a.create_filter
    then some (1, record { shown = []; uses = gave com_library ∷ took com_library ∷ [] })
    else examine a (took source_filter ∷ took com_library ∷ [])
