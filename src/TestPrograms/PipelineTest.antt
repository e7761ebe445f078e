-- ===== src/TestPrograms/PipelineTest.antt =====
-- TestFullPipeline.cpp: it builds a graph of the virtual camera, a sample grabber and a null renderer,
-- runs it and counts the frames. What it writes to its log is left out but for the verdict.
pub mod Laws
use ps3eye_direct_show.Common.{
  ℕ, suc, ◌%◌, ◌^◌, ◌==◌, ltb, Bool, true, false, Option, none, some, List, [], ◌∷◌, if◌then◌else◌,
  not, ◌&&◌, is_null, unless_null,
}
use ps3eye_direct_show.Common.Com.{HResult, s_ok, e_nointerface, e_notimpl, failed, succeeded}
use ps3eye_direct_show.Common.Words.{inc32, dec32}
use ps3eye_direct_show.TestPrograms.Objects.{
  Object, com_library, graph, source_filter, grabber_filter, renderer_filter, pin_enumerator,
  filter_pin, source_pin, grabber_input, grabber_output, renderer_pin, grabber, callback, control,
  Use, took, gave, took_if, gave_if,
}

-- SampleGrabberCallback.
pub record Callback : Type 0 where
  pub ref_count : ℕ
  pub frame_count : ℕ
  pub first_frame_time : ℕ

abbrev pub new_callback : Callback
new_callback = record { ref_count = 1; frame_count = 0; first_frame_time = 0 }

pub data Interface : Type 0 where
  iid_unknown iid_sample_grabber_cb other_iid : Interface

abbrev is_known : Interface → Bool
is_known other_iid = false
is_known _ = true

unfoldable pub query_interface : Interface → Callback → HResult × Callback
query_interface iid c =
    if is_known iid then (s_ok, record c { ref_count = inc32 c.ref_count }) else (e_nointerface, c)

-- The answer, and the object, none once it is deleted.
unfoldable pub release : Callback → ℕ × Option Callback
release c =
    let n = dec32 c.ref_count in (n, if n == 0 then none else some (record c { ref_count = n }))

abbrev pub sample_cb : HResult
sample_cb = e_notimpl

-- `tick` is what GetTickCount answers; a count of frames that passes 2 ^ 31 is not met.
unfoldable pub buffer_cb : (tick : ℕ) → Callback → HResult × Callback
buffer_cb tick c = (
  s_ok,
  record c {
    frame_count = suc c.frame_count;
    first_frame_time = if c.frame_count == 0 then tick else c.first_frame_time;
  },
)

unfoldable pub buffer_cbs : List ℕ → Callback → Callback
unfolding buffer_cb
buffer_cbs [] c = c
buffer_cbs (t ∷ ts) c = buffer_cbs ts (buffer_cb t c).1

-- What the program meets. An enumerator is none where it is null; the pins of the grabber are given by
-- whether they have the direction looked for. `frames` are the ticks of the frames while it sleeps.
pub record Answers : Type 0 where
  pub initialize : HResult
  pub create_graph : HResult
  pub create_source : HResult
  pub add_source : HResult
  pub create_grabber : HResult
  pub add_grabber : HResult
  pub has_grabber : Bool
  pub create_renderer : HResult
  pub source_pins : Option Bool
  pub grabber_inputs : Option (List Bool)
  pub grabber_outputs : Option (List Bool)
  pub renderer_pins : Option Bool
  pub has_control : Bool
  pub run : HResult
  pub frames : List ℕ

-- The first pin of an enumerator, if there is one.
abbrev pub first_pin : Object → Option Bool → List Use → Bool × List Use
first_pin o none us = (false, us)
first_pin o (some found) us =
    (found, gave pin_enumerator ∷ took_if found o (took pin_enumerator ∷ us))

-- `while (pEnum->Next(1, &pPin, NULL) == S_OK)`: the first pin of the direction looked for; those in
-- front of it are released.
unfoldable pub find_pin : Object → List Bool → List Use → Bool × List Use
find_pin o [] us = (false, us)
find_pin o (fits ∷ rest) us =
    let more = find_pin o rest (gave filter_pin ∷ took filter_pin ∷ us) in
    if fits then (true, took o ∷ us) else more

abbrev pub direction_pin : Object → Option (List Bool) → List Use → Bool × List Use
direction_pin o none us = (false, us)
direction_pin o (some pins) us =
    let (found, us') = find_pin o pins (took pin_enumerator ∷ us) in
    (found, gave pin_enumerator ∷ us')

-- `if (a && b)` connect them and release both.
abbrev pub joined : (found_a found_b : Bool) → Object → Object → List Use → List Use
joined found_a found_b a b us = if found_a && found_b then gave b ∷ gave a ∷ us else us

-- The two connections.
unfoldable pub connect_all : Answers → List Use → List Use
unfolding find_pin
connect_all a us =
    let (out, us₁) = first_pin source_pin a.source_pins us in
    let (in_pin, us₂) = direction_pin grabber_input a.grabber_inputs us₁ in
    let us₃ = joined out in_pin source_pin grabber_input us₂ in
    let (out_pin, us₄) = direction_pin grabber_output a.grabber_outputs us₃ in
    let (end_pin, us₅) =
      if succeeded a.create_renderer
      then first_pin renderer_pin a.renderer_pins us₄
      else (false, us₄) in
    joined out_pin end_pin grabber_output renderer_pin us₅

-- Running, with what the log says in the end: whether the test passed, none where the graph did not
-- run.
unfoldable pub verdict : Answers → Option Bool
unfolding buffer_cbs
verdict a =
    if failed a.run then none else some (ltb 0 (buffer_cbs a.frames new_callback).frame_count)

-- From the grabber's interface on; none is the fault on a null interface.
unfoldable pub build : Answers → List Use → Option (ℕ × Option Bool × List Use)
unfolding connect_all verdict
build a us =
    if a.has_grabber
    then (let us₁ =
          took_if (succeeded a.create_renderer) renderer_filter
            (took callback ∷ took grabber ∷ us) in
        let us₂ = connect_all a us₁ in
        if a.has_control
        then some (
          0,
          verdict a,
          gave com_library
              ∷ gave graph
              ∷ gave source_filter
              ∷ gave grabber_filter
              ∷ gave_if (succeeded a.create_renderer) renderer_filter
                  (gave callback ∷ gave grabber ∷ gave control ∷ took control ∷ us₂),
        )
        else none)
    else none

-- The exit code, the verdict and the uses, the last one first; none is the fault on a null interface.
unfoldable pub main : Answers → Option (ℕ × Option Bool × List Use)
unfolding build
main a =
    if failed a.initialize
    then some (1, none, [])
    else let us = took com_library ∷ [] in
      if failed a.create_graph
      then some (1, none, gave com_library ∷ us)
      else let us₁ = took graph ∷ us in
        if failed a.create_source
        then some (1, none, gave com_library ∷ gave graph ∷ us₁)
        else let us₂ = took source_filter ∷ us₁ in
          if failed a.add_source
          then some (1, none, gave com_library ∷ gave graph ∷ gave source_filter ∷ us₂)
          else if failed a.create_grabber
          then some (1, none, gave com_library ∷ gave graph ∷ gave source_filter ∷ us₂)
          else let us₃ = took grabber_filter ∷ us₂ in
            if failed a.add_grabber
            then some (
              1,
              none,
              gave com_library ∷ gave graph ∷ gave source_filter ∷ gave grabber_filter ∷ us₃,
            )
            else build a us₃
