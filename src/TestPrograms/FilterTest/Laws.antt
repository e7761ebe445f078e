-- ===== src/TestPrograms/FilterTest/Laws.antt =====
-- The filter test gives back what it takes, and what it shows of the virtual camera.
use ps3eye_direct_show.Common.{
  ℕ, zero, suc, ◌+◌, ◌≡◌, refl, true, false, Option, none, some, List, [], ◌∷◌, arith, inl, inr,
  Option-cases, Bool-cases, ◌&&◌,
}
use ps3eye_direct_show.Common.Com.{HResult, s_ok, failed, succeeded}
use ps3eye_direct_show.Common.Int.{pos}
use ps3eye_direct_show.DirectShow.Types.{MediaType, empty_media_type}
use ps3eye_direct_show.VirtualPin.{Sizes, virtual_media_type, get_media_type}
use ps3eye_direct_show.TestPrograms.Objects.{
  Object, Use, filter_pin, pin_filter, type_enumerator, pin_enumerator, com_library, source_filter,
  graph, took, gave, taken, given, took_if, gave_if,
}
use ps3eye_direct_show.TestPrograms.FilterTest.{
  PinAnswers, Answers, Log, list_pins, show_type, show_types, show_output, show_pins, examine, main,
  list_all, show_all, and_then,
}

-- As much is taken and not given back in `us` as in `vs`.
abbrev Even : Object → List Use → List Use → Type 0
Even o us vs = taken o us + given o vs ≡ given o us + taken o vs

list_pins-Even : (o : Object) (ps : List PinAnswers) (us : List Use) → Even o (list_pins ps us) us
unfolding list_pins
list_pins-Even o [] us = ground arith
list_pins-Even o (p ∷ ps) us =
    let vs =
      gave filter_pin
      ∷ gave_if p.has_filter pin_filter (took_if p.has_filter pin_filter (took filter_pin ∷ us)) in
    ground (arith, list_pins-Even o ps vs)

-- The same for what a loop leaves, if it does not fault.
abbrev KeepsEven : Object → List Use → Option Log → Type 0
KeepsEven o us none = Unit {0}
KeepsEven o us (some l) = Even o l.uses us

show_type-Even : (o : Object) (mt : MediaType) (l : Log) → KeepsEven o l.uses (show_type mt l)
unfolding show_type
show_type-Even o mt l = ground arith

KeepsEven-trans :
    (o : Object) (us vs : List Use) (m : Option Log)
    → Even o vs us
    → KeepsEven o vs m
    → KeepsEven o us m
KeepsEven-trans o us vs none e k = tt
KeepsEven-trans o us vs (some l) e k = omega (arith, e, k)

and_then-Even :
    (o : Object) (us : List Use) (m : Option Log) (f : Log → Option Log)
    → KeepsEven o us m
    → ((l : Log) → KeepsEven o l.uses (f l))
    → KeepsEven o us (and_then m f)
and_then-Even o us none f k h = tt
and_then-Even o us (some l) f k h = KeepsEven-trans o us l.uses (f l) k (h l)

show_types-Even :
    (o : Object) (mts : List MediaType) (l : Log) → KeepsEven o l.uses (show_types mts l)
unfolding show_types
show_types-Even o [] l = ground arith
show_types-Even o (mt ∷ mts) l =
    and_then-Even o l.uses (show_type mt l) (λ k. show_types mts k) (show_type-Even o mt l)
      (show_types-Even o mts)

-- What is put around a loop is given back behind it.
around-Even :
    (o : Object) (us vs : List Use) (m : Option Log) (f : Log → List Use)
    → KeepsEven o vs m
    → ((l : Log) → Even o l.uses vs → Even o (f l) us)
    → KeepsEven o us (and_then m (λ k. some (record k { uses = f k })))
around-Even o us vs none f k h = tt
around-Even o us vs (some l) f k h = h l k

next-Even :
    (o : Object) (us vs : List Use) (m : Option Log) (f : Log → List Use) (g : Log → Option Log)
    → KeepsEven o vs m
    → ((l : Log) → Even o l.uses vs → Even o (f l) us)
    → ((l : Log) → KeepsEven o l.uses (g l))
    → KeepsEven o us (and_then m (λ k. g (record k { uses = f k })))
next-Even o us vs none f g k h n = tt
next-Even o us vs (some l) f g k h n =
    KeepsEven-trans o us (f l) (g (record l { uses = f l })) (h l k) (n (record l { uses = f l }))

show_output-Even : (o : Object) (p : PinAnswers) (l : Log) → KeepsEven o l.uses (show_output p l)
unfolding show_output
show_output-Even o p l = elim (Bool-cases p.is_output) [
  | inr input ↦ rw input ground arith
  | inl out ↦ elim (Option-cases p.media_types) [
    | inl nothing ↦ rw (out, nothing) ground arith
    | inr (mts, types) ↦
        rw (out, types)
          (around-Even o l.uses (took type_enumerator ∷ l.uses)
            (show_types mts (record l { uses = took type_enumerator ∷ l.uses }))
            (λ k. gave type_enumerator ∷ k.uses)
            (show_types-Even o mts (record l { uses = took type_enumerator ∷ l.uses }))
            λ k e. ground (arith, e))
  ]
]

show_pins-Even : (o : Object) (ps : List PinAnswers) (l : Log) → KeepsEven o l.uses (show_pins ps l)
unfolding show_pins
show_pins-Even o [] l = ground arith
show_pins-Even o (p ∷ ps) l =
    let us = took_if p.has_filter pin_filter (took filter_pin ∷ l.uses) in
    let back : Log → List Use = λ k. gave filter_pin ∷ gave_if p.has_filter pin_filter k.uses in
    next-Even o l.uses us (show_output p (record l { uses = us })) back (λ k. show_pins ps k)
      (show_output-Even o p (record l { uses = us })) (λ k e. ground (arith, e))
      (show_pins-Even o ps)

list_all-Even :
    (o : Object) (ps : Option (List PinAnswers)) (us : List Use) → Even o (list_all ps us) us
list_all-Even o none us = ground arith
list_all-Even o (some ps) us = ground (arith, list_pins-Even o ps (took pin_enumerator ∷ us))

show_all-Even :
    (o : Object) (ps : Option (List PinAnswers)) (l : Log) → KeepsEven o l.uses (show_all ps l)
show_all-Even o none l = ground arith
show_all-Even o (some ps) l =
    let us = took pin_enumerator ∷ l.uses in
    around-Even o l.uses us (show_pins ps (record l { uses = us }))
      (λ k. gave pin_enumerator ∷ k.uses) (show_pins-Even o ps (record l { uses = us }))
      (λ k e. ground (arith, e))

examine-Even :
    (o : Object) (a : Answers) (us : List Use) (code : ℕ) (l : Log)
    → examine a us ≡ some (code, l)
    → Even o l.uses (gave com_library ∷ gave source_filter ∷ us)
unfolding examine
examine-Even o a us code l e =
    let named = succeeded a.filter_info && a.has_graph in
    let us₁ = gave_if named graph (took_if named graph us) in
    let start : Log = record { shown = []; uses = list_all a.pins us₁ } in
    elim (Option-cases (show_all a.pins_again start)) [
      | inl fault ↦ ground (arith, fault, e)
      | inr (k, done) ↦
          let even : Even o k.uses start.uses = rw done at (show_all-Even o a.pins_again start) in
          ground (arith, even, list_all-Even o a.pins us₁, done, e)
    ]

-- The filter test, where it does not fault, gives back every reference and all memory that it takes,
-- whichever calls fail, and leaves COM.
pub main-IsEven :
    (o : Object) (a : Answers) (code : ℕ) (l : Log)
    → main a ≡ some (code, l)
    → taken o l.uses ≡ given o l.uses
unfolding main
main-IsEven o a code l e =
    ground (arith, e, examine-Even o a (took source_filter ∷ took com_library ∷ []) code l)

-- What `GetMediaType` of the virtual pin answers at a position, where it answers S_OK.
abbrev pub accepted : HResult × Option MediaType → Option MediaType
accepted (s_ok, mt) = mt
accepted (h, mt) = none

abbrev pub nth : List MediaType → ℕ → Option MediaType
nth [] i = none
nth (x ∷ xs) zero = some x
nth (x ∷ xs) (suc i) = nth xs i

-- The base classes' enumerator asks the pin for position after position, until it answers other than
-- S_OK.
abbrev pub IsEnumerated : Sizes → List MediaType → Type 0
IsEnumerated z mts =
    (i : ℕ) → nth mts i ≡ accepted (get_media_type z (pos i) true (some empty_media_type))

one_type : (z : Sizes) (mts : List MediaType) → IsEnumerated z mts → mts ≡ virtual_media_type z ∷ []
unfolding get_media_type
one_type z [] h = ground (arith, h 0)
one_type z (x ∷ []) h = ground (arith, h 0)
one_type z (x ∷ y ∷ more) h = ground (arith, h 1)

-- Where COM and the filter can be had, and the second enumeration hands out the one output pin with the
-- media types that the base classes enumerate from the virtual pin, the test does not fault, exits with
-- 0 and shows one media type, of 640 by 480 and 24 bits.
pub main-get_media_type :
    (z : Sizes) (a : Answers) (p : PinAnswers) (mts : List MediaType)
    → failed a.initialize ≡ false
    → failed a.create_filter ≡ false
    → a.pins_again ≡ some (p ∷ [])
    → p.is_output ≡ true
    → p.media_types ≡ some mts
    → IsEnumerated z mts
    → (l : Log) × (main a ≡ some (0, l)) × (l.shown ≡ (pos 640, 480, 24) ∷ [])
unfolding main examine show_pins show_output show_types show_type virtual_media_type
main-get_media_type z a p mts begun made again out types h =
    rw (begun, made, again, out, types, one_type z mts h) (_, refl, refl)
