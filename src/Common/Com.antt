-- ===== src/Common/Com.antt =====
-- HRESULT codes and COM reference counts. A code that comes from a call of Windows or of another
-- library is `code n`; FAILED tests its high bit, and is fixed for the codes named in the source.
use Prim.Native.Nat.{ℕ, ◌^◌}
use mathlib.Core.Path.{◌≡◌, refl}
use mathlib.Core.Bool.{Bool, true, false, not}
use ps3eye_direct_show.Common.Tests.{leb}

pub data HResult : Type 0 where
  s_ok s_false vfw_s_no_more_items : HResult
  e_pointer e_fail e_unexpected e_outofmemory e_invalidarg e_notimpl e_nointerface : HResult
  e_prop_id_unsupported e_prop_set_unsupported : HResult
  class_e_noaggregation class_e_classnotavailable : HResult
  mf_e_shutdown mf_e_not_initialized mf_e_unsupported_time_format : HResult
  mf_e_invalid_state_transition mf_e_invalidstreamnumber mf_e_unsupported_service : HResult
  mf_e_invalidrequest : HResult
  code : ℕ → HResult

-- The macros FAILED and SUCCEEDED.
unfoldable pub failed : HResult → Bool
failed s_ok = false
failed s_false = false
failed vfw_s_no_more_items = false
failed (code n) = leb (2 ^ 31) n
failed _ = true

abbrev pub succeeded : HResult → Bool
succeeded h = not (failed h)

-- `failed` stays shut in proofs, which are given its value at the codes that they meet.
pub failed-s_ok : failed s_ok ≡ false
unfolding failed
failed-s_ok = refl

pub failed-e_fail : failed e_fail ≡ true
unfolding failed
failed-e_fail = refl

pub failed-e_unexpected : failed e_unexpected ≡ true
unfolding failed
failed-e_unexpected = refl

pub failed-e_outofmemory : failed e_outofmemory ≡ true
unfolding failed
failed-e_outofmemory = refl
