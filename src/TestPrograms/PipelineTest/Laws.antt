-- ===== src/TestPrograms/PipelineTest/Laws.antt =====
-- What the pipeline test gives back, and when it passes.
use ps3eye_direct_show.Common.{
  ℕ, ◌+◌, ◌≡◌, ◌⊎◌, refl, Bool, true, false, Option, none, some, List, [], ◌∷◌, if◌then◌else◌,
  arith, ltb, ◌&&◌, not, sym,
}
use ps3eye_direct_show.Common.Com.{failed, succeeded}
use ps3eye_direct_show.TestPrograms.Objects.{
  Object, source_pin, grabber_input, grabber_output, renderer_pin, pin_enumerator, filter_pin,
  com_library, graph, source_filter, grabber_filter, renderer_filter, callback, grabber, Use, took,
  gave, took_if, taken, given, count_of,
}
use ps3eye_direct_show.TestPrograms.PipelineTest.{
  Callback, new_callback, buffer_cb, buffer_cbs, Answers, first_pin, find_pin, direction_pin,
  joined, connect_all, verdict, build, main,
}

abbrev any : List Bool → Bool
any [] = false
any (b ∷ bs) = if b then true else any bs

abbrev found_one : Option Bool → Bool
found_one none = false
found_one (some b) = b

abbrev found_any : Option (List Bool) → Bool
found_any none = false
found_any (some bs) = any bs

abbrev pub is_empty : List ℕ → Bool
is_empty [] = true
is_empty (t ∷ ts) = false

abbrev once : Bool → ℕ → ℕ
once b n = if b then n else 0

-- A pin that was found without the one to connect it with is not given back.
abbrev unpaired : (found_a found_b : Bool) → (a b : Object) → Object → ℕ
unpaired found_a found_b a b o =
    if found_a && found_b then 0 else once found_a (count_of o a) + once found_b (count_of o b)

abbrev pub stranded : Answers → Object → ℕ
stranded a o =
    unpaired (found_one a.source_pins) (found_any a.grabber_inputs) source_pin grabber_input o
    + unpaired (found_any a.grabber_outputs)
        (succeeded a.create_renderer && found_one a.renderer_pins) grabber_output renderer_pin o

-- In `us`, `n` more uses of `o` than in `vs` are taken and not given back.
abbrev Left : Object → ℕ → List Use → List Use → Type 0
Left o n us vs = taken o us + given o vs ≡ given o us + taken o vs + n

find_pin-Left :
    (o x : Object) (pins : List Bool) (us : List Use)
    → let (found, vs) = find_pin x pins us in
      (found ≡ any pins) × Left o (once found (count_of o x)) vs us
unfolding find_pin
find_pin-Left o x [] us = ground arith
find_pin-Left o x (fits ∷ rest) us =
    ground (arith, find_pin-Left o x rest (gave filter_pin ∷ took filter_pin ∷ us))

first_pin-Left :
    (o x : Object) (pins : Option Bool) (us : List Use)
    → let (found, vs) = first_pin x pins us in
      (found ≡ found_one pins) × Left o (once found (count_of o x)) vs us
first_pin-Left o x pins us = ground arith

direction_pin-Left :
    (o x : Object) (pins : Option (List Bool)) (us : List Use)
    → let (found, vs) = direction_pin x pins us in
      (found ≡ found_any pins) × Left o (once found (count_of o x)) vs us
direction_pin-Left o x none us = ground arith
direction_pin-Left o x (some pins) us =
    ground (arith, find_pin-Left o x pins (took pin_enumerator ∷ us))

joined-Left :
    (o a b : Object) (found_a found_b : Bool) (us vs : List Use)
    → Left o (once found_a (count_of o a) + once found_b (count_of o b)) us vs
    → Left o (unpaired found_a found_b a b o) (joined found_a found_b a b us) vs
joined-Left o a b found_a found_b us vs e = ground (arith, e)

-- The frames that come are counted.
buffer_cbs-count :
    (ts : List ℕ) (c : Callback)
    → ltb 0 (buffer_cbs ts c).frame_count ≡ (if is_empty ts then ltb 0 c.frame_count else true)
unfolding buffer_cbs buffer_cb
buffer_cbs-count [] c = refl
buffer_cbs-count (t ∷ ts) c = ground (arith, buffer_cbs-count ts (buffer_cb t c).1)

Left-add :
    (o : Object) (m n : ℕ) (us vs ws : List Use)
    → Left o m us vs
    → Left o n vs ws
    → Left o (n + m) us ws
Left-add o m n us vs ws e f = omega (arith, e, f)

-- Two pins are looked for, and connected where both are found.
pair-Left :
    (o a b : Object) (want_a want_b found_a found_b : Bool) (us vs ws : List Use)
    → (found_a ≡ want_a) × Left o (once found_a (count_of o a)) vs us
    → (found_b ≡ want_b) × Left o (once found_b (count_of o b)) ws vs
    → Left o (unpaired want_a want_b a b o) (joined found_a found_b a b ws) us
pair-Left o a b want_a want_b found_a found_b us vs ws (e, f) (g, h) =
    rw (sym e, sym g)
      (joined-Left o a b found_a found_b ws us
        (Left-add o (once found_b (count_of o b)) (once found_a (count_of o a)) ws vs us h f))

end_pin-Left :
    (o : Object) (made : Bool) (pins : Option Bool) (us : List Use)
    → let (found, vs) = (if made then first_pin renderer_pin pins us else (false, us)) in
      (found ≡ (made && found_one pins)) × Left o (once found (count_of o renderer_pin)) vs us
end_pin-Left o true pins us = first_pin-Left o renderer_pin pins us
end_pin-Left o false pins us = ground arith

connect_all-Left :
    (o : Object) (a : Answers) (us : List Use) → Left o (stranded a o) (connect_all a us) us
unfolding connect_all
connect_all-Left o a us =
    let (out, us₁) = first_pin source_pin a.source_pins us in
    let (in_pin, us₂) = direction_pin grabber_input a.grabber_inputs us₁ in
    let us₃ = joined out in_pin source_pin grabber_input us₂ in
    let (out_pin, us₄) = direction_pin grabber_output a.grabber_outputs us₃ in
    let last =
      if succeeded a.create_renderer
      then first_pin renderer_pin a.renderer_pins us₄
      else (false, us₄) in
    let us₆ = joined out_pin last.0 grabber_output renderer_pin last.1 in
    let first_pair =
      pair-Left o source_pin grabber_input (found_one a.source_pins) (found_any a.grabber_inputs)
        out in_pin us us₁ us₂ (first_pin-Left o source_pin a.source_pins us)
        (direction_pin-Left o grabber_input a.grabber_inputs us₁) in
    let last_pair =
      pair-Left o grabber_output renderer_pin (found_any a.grabber_outputs)
        (succeeded a.create_renderer && found_one a.renderer_pins) out_pin last.0 us₃ us₄ last.1
        (direction_pin-Left o grabber_output a.grabber_outputs us₃)
        (end_pin-Left o (succeeded a.create_renderer) a.renderer_pins us₄) in
    Left-add o
      (unpaired (found_any a.grabber_outputs)
        (succeeded a.create_renderer && found_one a.renderer_pins) grabber_output renderer_pin o)
      (unpaired (found_one a.source_pins) (found_any a.grabber_inputs) source_pin grabber_input o)
      us₆ us₃ us last_pair first_pair

-- The uses in front of `build`.
abbrev prepared : List Use
prepared = took grabber_filter ∷ took source_filter ∷ took graph ∷ took com_library ∷ []

build-Left :
    (o : Object) (a : Answers) (code : ℕ) (v : Option Bool) (us : List Use)
    → build a prepared ≡ some (code, v, us)
    → (code ≡ 0) × (taken o us ≡ given o us + stranded a o) × (v ≡ verdict a)
unfolding build
build-Left o a code v us e =
    let start =
      took_if (succeeded a.create_renderer) renderer_filter
        (took callback ∷ took grabber ∷ prepared) in
    ground (arith, e, connect_all-Left o a start)

-- The pipeline test, where it does not fault, gives back what it takes but for the pins that it found
-- and had nothing to connect with; and it passes exactly where the graph runs and a frame came.
pub main-stranded :
    (o : Object) (a : Answers) (code : ℕ) (v : Option Bool) (us : List Use)
    → main a ≡ some (code, v, us)
    → ((code ≡ 1) × (taken o us ≡ given o us) × (v ≡ none))
      ⊎ ((code ≡ 0)
          × (taken o us ≡ given o us + stranded a o)
          × (v ≡ (if failed a.run then none else some (not (is_empty a.frames)))))
unfolding main verdict
main-stranded o a code v us e =
    ground (arith, e, build-Left o a code v us, buffer_cbs-count a.frames new_callback)
