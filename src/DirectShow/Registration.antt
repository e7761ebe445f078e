-- ===== src/DirectShow/Registration.antt =====
-- DllRegisterServer and DllUnregisterServer of the two DirectShow filters: DirectShowFilter/setup.cpp
-- for the camera's source, MediaFoundationSource/PS3EyeVirtualFilter.cpp for the virtual camera.
pub mod Laws
use ps3eye_direct_show.Common.{ℕ, Bool, true, false, List, [], ◌∷◌, if◌then◌else◌}
use ps3eye_direct_show.Common.Com.{HResult, failed, succeeded}

pub data RegisterCall : Type 0 where
  -- AMovieDllRegisterServer2(TRUE) and (FALSE) that answered this
  registered_server unregistered_server : HResult → RegisterCall
  -- CoCreateInstance of the filter mapper that succeeded, and its Release
  created_mapper released_mapper : RegisterCall
  -- RegisterFilter and UnregisterFilter in the category of video inputs, and the answer
  registered_filter unregistered_filter : HResult → RegisterCall

-- What the base classes, COM and the filter mapper answer.
pub record Answers : Type 0 where
  pub server : HResult
  pub create_mapper : HResult
  pub filter : HResult

-- The calls are the last one first.
unfoldable pub register_source : Answers → HResult × List RegisterCall
register_source a =
    let c₁ = registered_server a.server ∷ [] in
    if failed a.server
    then (a.server, c₁)
    else if failed a.create_mapper
    then (a.create_mapper, c₁)
    else (a.filter, released_mapper ∷ registered_filter a.filter ∷ created_mapper ∷ c₁)

unfoldable pub unregister_source : Answers → HResult × List RegisterCall
unregister_source a =
    let c₁ = unregistered_server a.server ∷ [] in
    if failed a.server
    then (a.server, c₁)
    else if failed a.create_mapper
    then (a.create_mapper, c₁)
    else (a.filter, released_mapper ∷ unregistered_filter a.filter ∷ created_mapper ∷ c₁)

unfoldable pub register_virtual : Answers → HResult × List RegisterCall
register_virtual a =
    let c₁ = registered_server a.server ∷ [] in
    if failed a.server
    then (a.server, c₁)
    else if succeeded a.create_mapper
    then (a.filter, released_mapper ∷ registered_filter a.filter ∷ created_mapper ∷ c₁)
    else (a.create_mapper, c₁)

-- The answer of UnregisterFilter is not looked at.
unfoldable pub unregister_virtual : Answers → HResult × List RegisterCall
unregister_virtual a =
    if succeeded a.create_mapper
    then (
      a.server,
      unregistered_server a.server
          ∷ released_mapper
          ∷ unregistered_filter a.filter
          ∷ created_mapper
          ∷ [],
    )
    else (a.server, unregistered_server a.server ∷ [])
