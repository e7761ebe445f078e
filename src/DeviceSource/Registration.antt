-- ===== src/DeviceSource/Registration.antt =====
-- DllRegisterServer and DllUnregisterServer of PS3EyeDeviceSource.cpp.
use ps3eye_direct_show.Common.{
  ℕ, suc, ◌+◌, ◌%◌, ◌^◌, ◌≡◌, ◌⊎◌, Bool, true, false, Option, none, some, List, [], ◌∷◌, ◌++◌, ◌==◌,
  leb, if◌then◌else◌, arith, Option-cases, inl, inr, not, ◌≢◌, ◌&&◌, ◌||◌,
}
use ps3eye_direct_show.Common.Com.{HResult, s_ok, code, failed}

-- HRESULT_FROM_WIN32 on a 32-bit pattern.
abbrev pub hresult_from_win32 : ℕ → HResult
hresult_from_win32 x =
    if x == 0 then s_ok else if leb (2 ^ 31) x then code x else code (x % 2 ^ 16 + 0x80070000)

-- ERROR_FILE_NOT_FOUND.
abbrev pub file_not_found : ℕ
file_not_found = 2

-- The keys below HKEY_CLASSES_ROOT: CLSID\{…} and its InprocServer32.
pub data Key : Type 0 where
  clsid_key inproc_server_key : Key

pub data Value : Type 0 where
  default_value threading_model : Value

-- The calls made, with what Windows answers, 0 for success.
pub data RegistryCall : Type 0 where
  created_key closed_key : Key → RegistryCall
  set_value : Key → Value → ℕ → RegistryCall
  deleted_tree : Key → ℕ → RegistryCall
  registered_mft unregistered_mft : RegistryCall

-- What the two calls of Windows answer, 0 for success.
pub record KeyAnswers : Type 0 where
  pub create : ℕ
  pub set : ℕ

-- All callers pass a value.
unfoldable pub create_registry_key :
    Key → Value → KeyAnswers → List RegistryCall → HResult × List RegistryCall
create_registry_key k v a calls =
    if a.create == 0
    then (hresult_from_win32 a.set, closed_key k ∷ set_value k v a.set ∷ created_key k ∷ calls)
    else (hresult_from_win32 a.create, calls)

unfoldable pub delete_registry_key : Key → ℕ → List RegistryCall → HResult × List RegistryCall
delete_registry_key k answer calls = (
  if answer == file_not_found then s_ok else hresult_from_win32 answer,
  deleted_tree k answer ∷ calls,
)

pub record RegisterAnswers : Type 0 where
  -- GetLastError where GetModuleFileNameW failed
  pub module_path : Option ℕ
  pub clsid : KeyAnswers
  pub inproc_server : KeyAnswers
  pub threading : KeyAnswers
  pub mft_register : HResult

unfoldable pub dll_register_server : RegisterAnswers → HResult × List RegistryCall
unfolding create_registry_key
dll_register_server a = elim a.module_path [
  | some e ↦ (hresult_from_win32 e, [])
  | none ↦
      let (h₁, c₁) = create_registry_key clsid_key default_value a.clsid [] in
      if failed h₁
      then (h₁, c₁)
      else let (h₂, c₂) = create_registry_key inproc_server_key default_value a.inproc_server c₁ in
        if failed h₂
        then (h₂, c₂)
        else let (h₃, c₃) = create_registry_key inproc_server_key threading_model a.threading c₂ in
          if failed h₃ then (h₃, c₃) else (a.mft_register, registered_mft ∷ c₃)
]

unfoldable pub dll_unregister_server : ℕ → HResult × List RegistryCall
unfolding delete_registry_key
dll_unregister_server answer =
    let (h, c) = delete_registry_key clsid_key answer [] in (h, unregistered_mft ∷ c)

-- How many keys are opened and not closed.
abbrev pub opened_keys : List RegistryCall → ℕ
opened_keys [] = 0
opened_keys (created_key k ∷ cs) = suc (opened_keys cs)
opened_keys (_ ∷ cs) = opened_keys cs

abbrev pub closed_keys : List RegistryCall → ℕ
closed_keys [] = 0
closed_keys (closed_key k ∷ cs) = suc (closed_keys cs)
closed_keys (_ ∷ cs) = closed_keys cs

abbrev is_in : Key → Key → Bool
is_in clsid_key k = true
is_in inproc_server_key inproc_server_key = true
is_in inproc_server_key clsid_key = false

abbrev is_at : Key → Value → Key → Value → Bool
is_at clsid_key default_value clsid_key default_value = true
is_at inproc_server_key default_value inproc_server_key default_value = true
is_at inproc_server_key threading_model inproc_server_key threading_model = true
is_at _ _ _ _ = false

-- Whether a value is in the registry after a list of calls, of which those count that Windows answered
-- with 0: a tree that is deleted takes the keys below it along. A deletion that fails is taken to leave
-- the tree.
abbrev pub leaves : List RegistryCall → Key → Value → Bool
leaves [] k v = false
leaves (set_value j u answer ∷ cs) k v = (answer == 0 && is_at j u k v) || leaves cs k v
leaves (deleted_tree j answer ∷ cs) k v = not (answer == 0 && is_in j k) && leaves cs k v
leaves (_ ∷ cs) k v = leaves cs k v

hresult_from_win32_lem : (x : ℕ) → failed (hresult_from_win32 x) ≡ not (x == 0)
unfolding failed
hresult_from_win32_lem x = ground arith

unregistered :
    (a : RegisterAnswers) (answer : ℕ) (k : Key) (v : Value)
    → let cs = (dll_register_server a).1 in
      ((answer ≡ 0)
        × (leaves ((dll_unregister_server answer).1 ++ cs) k v ≡ false)
        × (failed (dll_unregister_server answer).0 ≡ false))
      ⊎ ((answer ≢ 0) × (failed (dll_unregister_server answer).0 ≡ not (answer == file_not_found)))
unfolding dll_unregister_server failed
unregistered a answer k v = ground (arith, hresult_from_win32_lem answer)

-- Registering closes every key that it opens, whichever call fails, and where it succeeds the class, its
-- server and its threading model are in the registry. Unregistering afterwards removes all of it where
-- the tree could be deleted, and answers success then; where it could not, the answer is a failure,
-- unless Windows found no such tree. A GetModuleFileNameW that failed has an error that is not 0.
pub dll_register_server_lem :
    (a : RegisterAnswers) (answer : ℕ) (k : Key) (v : Value)
    → a.module_path ≢ some 0
    → let (h, cs) = dll_register_server a in
      (opened_keys cs ≡ closed_keys cs)
      × (((answer ≡ 0)
            × (leaves ((dll_unregister_server answer).1 ++ cs) k v ≡ false)
            × (failed (dll_unregister_server answer).0 ≡ false))
          ⊎ ((answer ≢ 0)
              × (failed (dll_unregister_server answer).0 ≡ not (answer == file_not_found))))
      × ((failed h ≡ true)
          ⊎ ((leaves cs clsid_key default_value ≡ true)
              × (leaves cs inproc_server_key default_value ≡ true)
              × (leaves cs inproc_server_key threading_model ≡ true)))
unfolding dll_register_server dll_unregister_server
dll_register_server_lem a answer k v real = elim (Option-cases a.module_path) [
  | inl found ↦ (
    ground arith,
    unregistered a answer k v,
    ground (
      arith,
      hresult_from_win32_lem a.clsid.create,
      hresult_from_win32_lem a.inproc_server.create,
      hresult_from_win32_lem a.threading.create,
      hresult_from_win32_lem a.clsid.set,
      hresult_from_win32_lem a.inproc_server.set,
      hresult_from_win32_lem a.threading.set,
    ),
  )
  | inr (e, none_found) ↦
      (ground arith, unregistered a answer k v, ground (arith, hresult_from_win32_lem e))
]
