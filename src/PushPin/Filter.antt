-- ===== src/PushPin/Filter.antt =====
-- PS3EyeSource (PS3EyeSource.cpp): the filter that owns the camera's pin.
use ps3eye_direct_show.Common.{
  ℕ, ◌≡◌, ◌⊎◌, inl, inr, refl, Bool, true, false, not, Option, none, some, List, [], ◌∷◌, arith,
  if◌then◌else◌, is_null, Bool-cases,
}
use ps3eye_direct_show.Common.Com.{HResult, s_ok, e_outofmemory}
use ps3eye_direct_show.Common.Int.{ℤ}
use ps3eye_direct_show.DirectShow.Types.{MediaType}
use ps3eye_direct_show.PushPin.{
  BaseClasses, PushPin, new_push_pin, get_media_type, offer_media_type,
}
use ps3eye_direct_show.PushPin.Formats.{IsDocumented}

-- What making the filter meets: the cameras found, by their addresses, what creating the clock answers,
-- the media type that the base class starts with, and the allocations. `answer_given` says that `phr` is
-- not null.
pub record FilterAnswers : Type 0 where
  pub devices : List ℕ
  pub clock : HResult
  pub connected_type : MediaType
  pub pin_allocated : Bool
  pub filter_allocated : Bool
  pub answer_given : Bool

-- The pin, null if none.
pub record SourceFilter : Type 0 where
  pub pin : Option PushPin

abbrev pub is_empty : List ℕ → Bool
is_empty [] = true
is_empty (d ∷ ds) = false

-- The constructor, with what it leaves in `*phr`, which was `before`.
unfoldable pub new_source_filter : FilterAnswers → (before : HResult) → HResult × SourceFilter
new_source_filter a before =
    let made =
      if a.pin_allocated
      then some (new_push_pin (not (is_empty a.devices)) a.clock a.connected_type)
      else none in
    (
      if a.answer_given then if is_null made then e_outofmemory else s_ok else before,
      record { pin = made },
    )

-- What is left in `*phr`, and the filter, null if none.
unfoldable pub create_instance : FilterAnswers → (before : HResult) → HResult × Option SourceFilter
unfolding new_source_filter
create_instance a before =
    let (made, inner) : Option SourceFilter × HResult =
      if a.filter_allocated
      then (some (new_source_filter a before).1, (new_source_filter a before).0)
      else (none, before) in
    (if a.answer_given then if is_null made then e_outofmemory else s_ok else inner, made)

-- The pin of a filter that is just made offers what `_GetMediaType` does, with base classes as
-- documented, and has a camera exactly where a device was found. The answer is that of the filter's own
-- allocation: S_OK too where the pin could not be allocated.
pub create_instance_lem :
    (b : BaseClasses) (a : FilterAnswers) (before : HResult) (position : ℤ) (allocated : Bool)
    (mt : Option MediaType)
    → IsDocumented b
    → a.answer_given ≡ true
    → let (h, made) = create_instance a before in
      ((h ≡ e_outofmemory) × (made ≡ none))
      ⊎ ((h ≡ s_ok)
          × (((a.pin_allocated ≡ false) × (made ≡ some (record { pin = none })))
              ⊎ ((p : PushPin) × (made ≡ some (record { pin = some p }))
                  × (is_null p.camera ≡ is_empty a.devices)
                  × (get_media_type b p position allocated mt
                      ≡ offer_media_type b position allocated mt))))
unfolding create_instance get_media_type
create_instance_lem b a before position allocated mt doc given =
    elim (Bool-cases a.filter_allocated) [
      | inr e ↦ inl (rw (e, given) refl, rw (e) refl)
      | inl e ↦ elim (Bool-cases a.pin_allocated) [
        | inr g ↦ inr (rw (e, given) refl, inl (g, rw (e, g) refl))
        | inl g ↦
            let p = new_push_pin (not (is_empty a.devices)) a.clock a.connected_type in
            inr (rw (e, given) refl, inr (p, rw (e, g) refl, ground arith, rw (doc.empty) refl))
      ]
    ]
