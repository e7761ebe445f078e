-- ===== src/PushPin/Formats.antt =====
-- The six formats that the pin offers, the ones that it accepts, and the rate asked of the camera.
use ps3eye_direct_show.Common.{
  ℕ, zero, suc, ◌*◌, ◌/◌, ◌≤◌, ◌<◌, ◌≡◌, ◌≢◌, ◌⊎◌, inl, inr, refl, Bool, true, false, Option, none,
  some, arith, Option-cases, Bool-cases, leb, some-injective, subst,
}
use ps3eye_direct_show.Common.Com.{s_ok}
use ps3eye_direct_show.Common.Int.{ℤ, leb_ℤ, pos, negsuc}
use ps3eye_direct_show.DirectShow.Types.{
  mediatype_video, mediasubtype_rgb32, BitmapInfoHeader, bi_rgb, VideoInfo, MediaType,
  empty_media_type,
}
use ps3eye_direct_show.PushPin.{
  BaseClasses, check_media_type, offered_fps, offered_width, offered_height, offered_header,
  sizeless_header, offered_media_type, offer_media_type, requested_fps, good_video_info,
}

-- What the pin relies on of the base classes, as DirectShow documents it: a media type with a major type
-- is valid and the default one is not, an uncompressed 32-bit bitmap has the subtype RGB32 and four
-- bytes for each pixel, and a VIDEOINFOHEADER is not empty.
pub record IsDocumented (b : BaseClasses) : Type 0 where
  pub valid : (mt : MediaType) → mt.major_type ≡ mediatype_video → b.is_valid mt ≡ true
  pub empty : b.is_valid empty_media_type ≡ false
  pub rgb32 :
      (h : BitmapInfoHeader)
      → h.bi_bit_count ≡ 32
      → h.bi_compression ≡ bi_rgb
      → b.bitmap_subtype h ≡ mediasubtype_rgb32
  pub area :
      (h : BitmapInfoHeader) (x y : ℕ)
      → h.bi_width ≡ pos x
      → h.bi_height ≡ pos y
      → h.bi_bit_count ≡ 32
      → b.bitmap_size h ≡ x * y * 4
  pub info : 0 < b.video_info_header

below_six : (P : ℕ → Type 0) → P 0 → P 1 → P 2 → P 3 → P 4 → P 5 → (i : ℕ) → i < 6 → P i
below_six P a b c d e f zero h = a
below_six P a b c d e f (suc zero) h = b
below_six P a b c d e f (suc (suc zero)) h = c
below_six P a b c d e f (suc (suc (suc zero))) h = d
below_six P a b c d e f (suc (suc (suc (suc zero)))) h = e
below_six P a b c d e f (suc (suc (suc (suc (suc zero))))) h = f
below_six P a b c d e f (suc (suc (suc (suc (suc (suc n)))))) h = absurd (omega arith)

module _ (b : BaseClasses) (doc : IsDocumented b) where
  abbrev IsAccepted : ℕ → Type 0
  IsAccepted i =
      (check_media_type b (some (offered_media_type b i)) ≡ s_ok)
      × ((offered_media_type b i).sample_size ≡ offered_width b i * offered_height b i * 4)

  abbrev offered_info : ℕ → VideoInfo
  offered_info i = record {
    avg_time_per_frame = pos (10000000 / offered_fps b i);
    bmi_header = offered_header b i;
  }

  IsAccepted-of_good : (i : ℕ) → good_video_info (offered_info i) ≡ true → IsAccepted i
  unfolding check_media_type offered_media_type
  IsAccepted-of_good i g = ground (
    arith,
    doc.valid (offered_media_type b i) refl,
    doc.info,
    doc.rgb32 (offered_header b i) refl refl,
    doc.area (sizeless_header b i) (offered_width b i) (offered_height b i) refl refl refl,
  )

  accepted : (i : ℕ) → i < 6 → IsAccepted i
  accepted i h =
      IsAccepted-of_good i
        (below_six (λ k. good_video_info (offered_info k) ≡ true) refl refl refl refl refl refl i h)

  -- With base classes as documented, `_GetMediaType` answers S_OK at the positions 0 to 5 only, and
  -- there `CheckMediaType` accepts what it made, with four bytes a pixel as the sample size; any other
  -- answer leaves the caller's media type as it was.
  pub offer_media_type_lem :
      (position : ℤ) (allocated : Bool) (mt : Option MediaType)
      → let (h, out) = offer_media_type b position allocated mt in
        ((h ≡ s_ok)
          × (i : ℕ) × (position ≡ pos i)
          × (i < 6)
          × (out ≡ some (offered_media_type b i))
          × (check_media_type b out ≡ s_ok)
          × ((offered_media_type b i).sample_size ≡ offered_width b i * offered_height b i * 4))
        ⊎ ((h ≢ s_ok) × (out ≡ mt))
  unfolding offer_media_type
  offer_media_type_lem (negsuc n) allocated mt = ground arith
  offer_media_type_lem (pos i) allocated none = ground arith
  offer_media_type_lem (pos i) false (some mt) = ground arith
  offer_media_type_lem (pos i) true (some mt) = elim (Bool-cases (leb 6 i)) [
    | inl past ↦ ground arith
    | inr within ↦
        let h : i < 6 = ground arith in
        rw within (inl (refl, i, refl, h, refl, (accepted i h).0, (accepted i h).1))
  ]

  -- For each format offered, with base classes as documented, the camera is asked for exactly the rate
  -- that the format was made for, 30, 60 or 15 frames a second, though the frame time in between is
  -- rounded down.
  pub requested_fps-offered :
      (i : ℕ) (v : VideoInfo)
      → i < 6
      → (offered_media_type b i).format ≡ some v
      → (requested_fps v ≡ some (pos (offered_fps b i)))
        × ((offered_fps b i ≡ 30) ⊎ (offered_fps b i ≡ 60) ⊎ (offered_fps b i ≡ 15))
  unfolding requested_fps offered_media_type
  requested_fps-offered i v h e =
      subst
        (λ u.
          (requested_fps u ≡ some (pos (offered_fps b i)))
          × ((offered_fps b i ≡ 30) ⊎ (offered_fps b i ≡ 60) ⊎ (offered_fps b i ≡ 15)))
        (some-injective _ _ e)
        (below_six AsksFor (refl, inl refl) (refl, inr (inl refl)) (refl, inr (inr refl))
          (refl, inl refl) (refl, inr (inl refl)) (refl, inr (inr refl)) i h)
    where
      AsksFor : ℕ → Type 0
      AsksFor k =
          (requested_fps (offered_info k) ≡ some (pos (offered_fps b k)))
          × ((offered_fps b k ≡ 30) ⊎ (offered_fps b k ≡ 60) ⊎ (offered_fps b k ≡ 15))

rate_bounds : (n : ℕ) → 142857 ≤ n → n ≤ 5000000 → (2 ≤ 10000000 / n) × (10000000 / n ≤ 70)
rate_bounds n h k = grind arith

rate_of_time :
    (v : VideoInfo) (a : ℤ)
    → v.avg_time_per_frame ≡ a
    → leb_ℤ (pos 142857) a ≡ true
    → leb_ℤ a (pos 5000000) ≡ true
    → (f : ℕ) × (requested_fps v ≡ some (pos f)) × (2 ≤ f) × (f ≤ 70)
unfolding requested_fps
rate_of_time v (negsuc n) e h k = ground arith
rate_of_time v (pos n) e h k =
    let r = rate_bounds n (ground arith) (ground arith) in (10000000 / n, ground arith, r.0, r.1)

-- A format that `CheckMediaType` accepts never makes the rate a division by zero: the rate lies between
-- 2 and 70 frames a second, and the size is one of the two that the camera has.
pub check_media_type_bounds :
    (b : BaseClasses) (mt : MediaType)
    → check_media_type b (some mt) ≡ s_ok
    → (v : VideoInfo) × (f : ℕ) × (mt.format ≡ some v)
      × (requested_fps v ≡ some (pos f))
      × (2 ≤ f)
      × (f ≤ 70)
      × (((v.bmi_header.bi_width ≡ pos 640) × (v.bmi_header.bi_height ≡ pos 480))
          ⊎ ((v.bmi_header.bi_width ≡ pos 320) × (v.bmi_header.bi_height ≡ pos 240)))
unfolding check_media_type
check_media_type_bounds b mt e = elim (Option-cases mt.format) [
  | inl f ↦ ground arith
  | inr (v, f) ↦
      let (r, q, lo, hi) = rate_of_time v v.avg_time_per_frame refl ground arith ground arith in
      (v, r, f, q, lo, hi, ground arith)
]
