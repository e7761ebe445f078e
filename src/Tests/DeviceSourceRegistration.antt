-- ===== src/Tests/DeviceSourceRegistration.antt =====
-- Runs of the theorems of DeviceSource/Registration.antt.
use ps3eye_direct_show.DeviceSource.Registration.{
  file_not_found, Key, Value, RegisterAnswers, dll_register_server, dll_unregister_server,
  opened_keys, closed_keys, leaves, dll_register_server_lem, inproc_server_key, clsid_key,
  default_value, threading_model,
}
use ps3eye_direct_show.Common.{ℕ, ◌≡◌, ◌⊎◌, true, false, ◌++◌, ◌==◌, arith, not, ◌≢◌}
use ps3eye_direct_show.Common.Com.{failed}
use ps3eye_direct_show.Tests.ProgramFixtures.{register_answers}

dll_register_server_lem_example :
    let a : RegisterAnswers = register_answers in
    let answer : ℕ = 0 in
    let k : Key = inproc_server_key in
    let v : Value = threading_model in
    let (h, cs) = dll_register_server a in
    (opened_keys cs ≡ closed_keys cs)
    × (((answer ≡ 0)
          × (leaves ((dll_unregister_server answer).1 ++ cs) k v ≡ false)
          × (failed (dll_unregister_server answer).0 ≡ false))
        ⊎ ((answer ≢ 0)
            × (failed (dll_unregister_server answer).0 ≡ not (answer == file_not_found))))
    × ((failed h ≡ true)
        ⊎ ((leaves cs clsid_key default_value ≡ true)
            × (leaves cs inproc_server_key default_value ≡ true)
            × (leaves cs inproc_server_key threading_model ≡ true)))
dll_register_server_lem_example =
    dll_register_server_lem register_answers 0 inproc_server_key threading_model (λ e. ground arith)
