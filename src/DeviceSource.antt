-- ===== src/DeviceSource.antt =====
-- PS3EyeActivate (MediaFoundationSource/PS3EyeDeviceSource.cpp): the activation object that makes the
-- media source when it is first asked for it, and shuts it down.
pub mod Attributes
pub mod Laws
pub mod ClassFactory
pub mod Registration
use ps3eye_direct_show.Common.{
  ℕ, suc, ◌-◌, ◌==◌, Bool, true, false, Option, none, some, if◌then◌else◌,
}
use ps3eye_direct_show.Common.Com.{
  HResult, s_ok, e_pointer, e_outofmemory, e_nointerface, class_e_noaggregation, failed,
}
use ps3eye_direct_show.Common.Words.{inc32, dec32}
use ps3eye_direct_show.SharedMemory.Layout.{World}
use ps3eye_direct_show.MediaSource.Source.{Source, shutdown}
use ps3eye_direct_show.MediaSource.Create.{InitAnswers, create_instance}

pub record Activate : Type 0 where
  pub ref_count : ℕ
  pub source : Option Source

-- The constructor. The attributes are Media Foundation's, and all methods for them pass their call on.
abbrev pub new_activate : Activate
new_activate = record { ref_count = 1; source = none }

-- PS3EyeActivate::CreateInstance.
unfoldable pub create_activate : (out_is_null allocated : Bool) → HResult × Option Activate
create_activate out_is_null allocated =
    if out_is_null
    then (e_pointer, none)
    else if allocated
    then (s_ok, some new_activate)
    else (e_outofmemory, none)

-- The interfaces asked for.
pub data Interface : Type 0 where
  iid_unknown iid_mf_attributes iid_mf_activate other_iid : Interface

abbrev is_known : Interface → Bool
is_known other_iid = false
is_known _ = true

unfoldable pub add_ref : Activate → ℕ × Activate
add_ref s = let n = inc32 s.ref_count in (n, record s { ref_count = n })

-- The second component says whether the object was handed out.
unfoldable pub query_interface :
    (out_is_null : Bool) → Interface → Activate → HResult × Bool × Activate
unfolding add_ref
query_interface out_is_null iid s =
    if out_is_null
    then (e_pointer, false, s)
    else if is_known iid
    then (s_ok, true, (add_ref s).1)
    else (e_nointerface, false, s)

-- `query` is what the source's QueryInterface answers.
unfoldable pub activate_object :
    (out_is_null allocated : Bool)
    → HResult
    → InitAnswers
    → World
    → Activate
    → HResult × Activate × World
activate_object out_is_null allocated query a w s =
    if out_is_null then (e_pointer, s, w) else elim s.source [
      | some t ↦ (query, s, w)
      | none ↦
          let (hr, made, w') = create_instance false allocated a w in
          if failed hr then (hr, s, w') else (query, record s { source = made }, w')
    ]

unfoldable pub shutdown_object : World → Activate → HResult × Activate × World
shutdown_object w s = elim s.source [
  | none ↦ (s_ok, s, w)
  | some t ↦ (s_ok, record s { source = none }, (shutdown w t).1)
]

-- `last` says whether the reference dropped was the last one, so that the source's destructor shuts it
-- down.
unfoldable pub detach_object : (last : Bool) → World → Activate → HResult × Activate × World
detach_object last w s = elim s.source [
  | none ↦ (s_ok, s, w)
  | some t ↦ (s_ok, record s { source = none }, if last then (shutdown w t).1 else w)
]

-- The object is gone, its destructor's ShutdownObject done, where the count gets to 0.
unfoldable pub release : World → Activate → ℕ × Option Activate × World
unfolding shutdown_object
release w s =
    let n = dec32 s.ref_count in
    if n == 0 then (n, none, (shutdown_object w s).2) else (n, some (record s { ref_count = n }), w)
