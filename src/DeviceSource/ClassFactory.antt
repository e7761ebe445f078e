-- ===== src/DeviceSource/ClassFactory.antt =====
-- PS3EyeClassFactory and DllGetClassObject (PS3EyeDeviceSource.cpp): how an application gets an
-- activation object.
use ps3eye_direct_show.Common.{
  ◌≡◌, ◌⊎◌, Bool, true, false, Option, none, some, if◌then◌else◌, arith,
}
use ps3eye_direct_show.Common.Com.{
  HResult, s_ok, s_false, e_pointer, e_nointerface, class_e_noaggregation,
  class_e_classnotavailable, failed,
}
use ps3eye_direct_show.SharedMemory.Layout.{World}
use ps3eye_direct_show.DeviceSource.{
  Activate, Interface, new_activate, create_activate, query_interface, release,
}

-- The interfaces that the factory is asked for.
pub data FactoryInterface : Type 0 where
  iid_factory_unknown iid_class_factory other_factory_iid : FactoryInterface

abbrev is_factory : FactoryInterface → Bool
is_factory other_factory_iid = false
is_factory _ = true

-- The second component says whether the factory, an object of static lifetime, was handed out.
unfoldable pub factory_query_interface : (out_is_null : Bool) → FactoryInterface → HResult × Bool
factory_query_interface out_is_null iid =
    if out_is_null
    then (e_pointer, false)
    else if is_factory iid
    then (s_ok, true)
    else (e_nointerface, false)

unfoldable pub dll_get_class_object :
    (is_our_class out_is_null : Bool) → FactoryInterface → HResult × Bool
unfolding factory_query_interface
dll_get_class_object is_our_class out_is_null iid =
    if is_our_class
    then factory_query_interface out_is_null iid
    else (class_e_classnotavailable, false)

unfoldable pub dll_can_unload_now : HResult
dll_can_unload_now = s_false

-- The object that lives on, with what was handed out; the ComPtr drops its own reference at the end.
unfoldable pub factory_create_instance :
    (outer_is_null allocated out_is_null : Bool)
    → Interface
    → World
    → HResult × Bool × Option Activate × World
factory_create_instance outer_is_null allocated out_is_null iid w =
    if outer_is_null
    then (let (hr, made) = create_activate false allocated in
        if failed hr then (hr, false, none, w) else elim made [
          | none ↦ (hr, false, none, w)
          | some s ↦
              let (h, handed, t) = query_interface out_is_null iid s in
              let (n, left, v) = release w t in (h, handed, left, v)
        ])
    else (class_e_noaggregation, false, none, w)

-- `CreateInstance` answers S_OK exactly where it hands out an object, which then has one reference, the
-- caller's; in all other cases no object is left. It does not touch the mapping.
pub factory_create_instance_lem :
    (outer_is_null allocated out_is_null : Bool) (iid : Interface) (w : World)
    → let (h, handed, left, v) =
        factory_create_instance outer_is_null allocated out_is_null iid w in
      (v ≡ w)
      × (((h ≡ s_ok) × (handed ≡ true) × (left ≡ some new_activate))
          ⊎ ((failed h ≡ true) × (handed ≡ false) × (left ≡ none)))
unfolding factory_create_instance create_activate query_interface release failed
factory_create_instance_lem outer_is_null allocated out_is_null iid w = ground arith
