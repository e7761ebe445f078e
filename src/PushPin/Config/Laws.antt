-- ===== src/PushPin/Config/Laws.antt =====
-- Setting, getting and listing formats.
use ps3eye_direct_show.Common.{
  ◌<◌, ◌≡◌, ◌⊎◌, inl, inr, refl, Bool, true, false, none, some, arith, leb, Bool-cases, is_null, ℕ,
  ◌≤◌,
}
use ps3eye_direct_show.Common.Com.{s_ok, e_unexpected, failed, failed-s_ok, failed-e_fail}
use ps3eye_direct_show.Common.Int.{ℤ, pos, negsuc}
use ps3eye_direct_show.DirectShow.Types.{VideoInfo, MediaType, Guid}
use ps3eye_direct_show.PushPin.{
  BaseClasses, PushPin, check_media_type, offer_media_type, get_media_type, offered_width,
  offered_height, offered_media_type,
}
use ps3eye_direct_show.PushPin.Config.{
  SetFormatAnswers, set_format, get_format, Capabilities, get_number_of_capabilities,
  get_stream_caps, StreamCaps, caps_of, get_property, query_supported, set_property,
}

-- `SetFormat` either keeps the format, which was copied and `CheckMediaType` accepts, and answers S_OK
-- where no pin is connected and what the graph's Reconnect answers where the connected pin accepts it;
-- or it leaves the pin as it was and answers a failure.
pub set_format_lem :
    (b : BaseClasses) (a : SetFormatAnswers) (mt : MediaType) (p : PushPin)
    → let (h, q) = set_format b a (some mt) p in
      ((q ≡ record p { current_media_type = mt })
        × (check_media_type b (some mt) ≡ s_ok)
        × (failed a.copy ≡ false)
        × (((failed a.connected_to ≡ true) × (h ≡ s_ok))
            ⊎ ((failed a.connected_to ≡ false)
                × (failed a.query_accept ≡ false)
                × (h ≡ a.reconnect))))
      ⊎ ((q ≡ p) × (failed h ≡ true))
unfolding set_format check_media_type
set_format_lem b a mt p = ground (arith, failed-s_ok, failed-e_fail)

-- Once a valid format is set, the pin offers that one at position 0 and none at another, and
-- `GetFormat` hands it out.
pub get_media_type-set_format :
    (b : BaseClasses) (a : SetFormatAnswers) (mt out : MediaType) (p : PushPin) (position : ℤ)
    (allocated : Bool)
    → b.is_valid mt ≡ true
    → (set_format b a (some mt) p).1.current_media_type ≡ mt
    → let q = (set_format b a (some mt) p).1 in
      (get_media_type b q (pos 0) allocated (some out) ≡ (s_ok, some mt))
      × (get_format b false allocated true q ≡ (s_ok, some mt))
      × ((position ≡ pos 0)
          ⊎ (get_media_type b q position allocated (some out) ≡ (e_unexpected, some out)))
unfolding get_media_type get_format
get_media_type-set_format b a mt out p position allocated v e = ground arith

-- The count of capabilities is right: given memory and pointers, `GetStreamCaps` succeeds exactly at the indices
-- below it, and the input, least cropping and largest output sizes that it lists there are those of
-- the format.
pub get_stream_caps_lem :
    (b : BaseClasses) (index : ℤ)
    → let (h, mt, caps) = get_stream_caps b index false false true true in
      ((i : ℕ) × (c : StreamCaps) × (n : Capabilities) × (index ≡ pos i)
        × (get_number_of_capabilities b false false ≡ (s_ok, some n))
        × (i < n.count)
        × (h ≡ s_ok)
        × (mt ≡ some (offered_media_type b i))
        × (caps ≡ some c)
        × (c.input_width ≡ pos (offered_width b i))
        × (c.input_height ≡ pos (offered_height b i))
        × (c.max_output_width ≡ c.input_width)
        × (c.max_output_height ≡ c.input_height)
        × (c.min_cropping_width ≡ c.input_width)
        × (c.min_cropping_height ≡ c.input_height))
      ⊎ ((failed h ≡ true) × (mt ≡ none) × (caps ≡ none))
unfolding failed get_stream_caps offer_media_type get_number_of_capabilities offered_media_type
get_stream_caps_lem b (negsuc n) = inr (refl, refl, refl)
get_stream_caps_lem b (pos i) = elim (Bool-cases (leb 6 i)) [
  | inl past ↦ rw past (inr (refl, refl, refl))
  | inr within ↦ rw within (
      inl (i, _, _, refl, refl, ground arith, refl, refl, refl, refl, refl, refl, refl, refl, refl))
]

-- The bit rate that every capability lists as its maximum is negative: 1000000000000 does not fit a
-- LONG, whose low 32 bits stand for -727379968.
pub max_bits_per_second_negative :
    (v : VideoInfo)
    → ((caps_of v).max_bits_per_second ≡ negsuc 727379967)
      × ((caps_of v).min_bits_per_second ≡ pos 0)
unfolding caps_of
max_bits_per_second_negative v = (refl, refl)

-- Given room for a GUID, `Get` answers as `QuerySupported` does: S_OK for the pin's category, which is
-- then written, and the same code of refusal for all else. `Set` refuses everything.
pub get_property-query_supported :
    (b : BaseClasses) (prop_set : Guid) (id room : ℕ)
    → b.guid ≤ room
    → let (h, out) = get_property b prop_set id room in
      (h ≡ (query_supported prop_set id).0)
      × (is_null out ≡ is_null (query_supported prop_set id).1)
      × (failed (set_property prop_set) ≡ true)
unfolding failed get_property query_supported set_property
get_property-query_supported b prop_set id room fits = ground arith
