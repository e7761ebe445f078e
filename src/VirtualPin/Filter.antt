-- ===== src/VirtualPin/Filter.antt =====
-- PS3EyeVirtualCam (PS3EyeVirtualFilter.cpp): the filter that makes the pin. CSource, its base class,
-- keeps the pins, and deletes them; the filter's own destructor is empty.
use ps3eye_direct_show.Common.{Bool, Option, none, some, List, [], ◌∷◌, if◌then◌else◌}
use ps3eye_direct_show.Common.Com.{HResult, e_outofmemory}
use ps3eye_direct_show.SharedMemory.Client.{new_client}
use ps3eye_direct_show.VirtualPin.{VirtualPin, new_virtual_pin}

-- `pins` are the first m_iPins of m_paStreams.
pub record VirtualCam : Type 0 where
  pub pins : List VirtualPin

-- CSource::AddPin, which the constructor of CSourceStream calls: its answer and the pins.
pub record Source : Type 0 where
  pub add_pin : VirtualPin → List VirtualPin → HResult × List VirtualPin

abbrev set_first : VirtualPin → List VirtualPin → List VirtualPin
set_first p [] = []
set_first p (q ∷ qs) = p ∷ qs

-- The constructor, with what it leaves in `*phr`.
unfoldable pub new_virtual_cam : Source → HResult × VirtualCam
new_virtual_cam b =
    let p = new_virtual_pin new_client in
    let (h, ps) = b.add_pin p [] in (h, record { pins = set_first p ps })

-- What is left in `*phr`, none where it is null and the allocation failed, and the filter.
unfoldable pub create_instance :
    Source → (allocated answer_given : Bool) → (before : HResult) → HResult × Option VirtualCam
unfolding new_virtual_cam
create_instance b allocated answer_given before =
    if allocated
    then (let (h, c) = new_virtual_cam b in (h, some c))
    else (if answer_given then e_outofmemory else before, none)
