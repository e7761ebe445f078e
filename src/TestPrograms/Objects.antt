-- ===== src/TestPrograms/Objects.antt =====
-- What the programs that use COM take and give back: references, media types, COM itself.
use ps3eye_direct_show.Common.{ℕ, ◌+◌, Bool, true, false, List, [], ◌∷◌, ◌==◌, if◌then◌else◌}

pub data Object : Type 0 where
  com_library graph source_filter grabber_filter renderer_filter : Object
  pin_enumerator type_enumerator filter_pin pin_filter : Object
  source_pin grabber_input grabber_output renderer_pin : Object
  media_type format_block : Object
  grabber callback control : Object

abbrev number : Object → ℕ
number com_library = 0
number graph = 1
number source_filter = 2
number grabber_filter = 3
number renderer_filter = 4
number pin_enumerator = 5
number type_enumerator = 6
number filter_pin = 7
number pin_filter = 8
number source_pin = 9
number grabber_input = 10
number grabber_output = 11
number renderer_pin = 12
number media_type = 13
number format_block = 14
number grabber = 15
number callback = 16
number control = 17

-- CoInitializeEx, a call that hands out a reference or memory; and the call that gives it back.
pub data Use : Type 0 where
  took gave : Object → Use

abbrev pub count_of : Object → Object → ℕ
count_of o p = if number o == number p then 1 else 0

abbrev pub taken : Object → List Use → ℕ
taken o [] = 0
taken o (took p ∷ us) = count_of o p + taken o us
taken o (gave p ∷ us) = taken o us

abbrev pub given : Object → List Use → ℕ
given o [] = 0
given o (took p ∷ us) = given o us
given o (gave p ∷ us) = count_of o p + given o us

-- `if (p) p->Release()` on what a call handed out or did not.
abbrev pub took_if : Bool → Object → List Use → List Use
took_if true o us = took o ∷ us
took_if false o us = us

abbrev pub gave_if : Bool → Object → List Use → List Use
gave_if true o us = gave o ∷ us
gave_if false o us = us
