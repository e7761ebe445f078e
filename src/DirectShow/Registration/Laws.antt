-- ===== src/DirectShow/Registration/Laws.antt =====
-- What the entry points leave registered.
use ps3eye_direct_show.Common.{
  ℕ, suc, ◌≡◌, Bool, true, false, not, ◌&&◌, List, [], ◌∷◌, arith, if◌then◌else◌,
}
use ps3eye_direct_show.Common.Com.{failed, succeeded}
use ps3eye_direct_show.DirectShow.Registration.{
  RegisterCall, registered_server, unregistered_server, created_mapper, released_mapper,
  registered_filter, unregistered_filter, Answers, register_source, unregister_source,
  register_virtual, unregister_virtual,
}

abbrev pub mappers : List RegisterCall → ℕ
mappers [] = 0
mappers (created_mapper ∷ cs) = suc (mappers cs)
mappers (_ ∷ cs) = mappers cs

abbrev pub releases : List RegisterCall → ℕ
releases [] = 0
releases (released_mapper ∷ cs) = suc (releases cs)
releases (_ ∷ cs) = releases cs

-- Whether the server, and the filter in its category, are registered behind the calls.
pub record Registered : Type 0 where
  pub server : Bool
  pub filter : Bool

abbrev pub after : List RegisterCall → Registered → Registered
after [] r = r
after (registered_server h ∷ cs) r =
    let s = after cs r in record s { server = if succeeded h then true else s.server }
after (unregistered_server h ∷ cs) r =
    let s = after cs r in record s { server = if succeeded h then false else s.server }
after (registered_filter h ∷ cs) r =
    let s = after cs r in record s { filter = if succeeded h then true else s.filter }
after (unregistered_filter h ∷ cs) r =
    let s = after cs r in record s { filter = if succeeded h then false else s.filter }
after (_ ∷ cs) r = after cs r

-- Where the calls of Windows do what they answer: on a system without the filter, registering either
-- filter answers success exactly where the server and the filter end up registered; where it fails the
-- server may stay behind, but not the filter. Every filter mapper is released.
pub register_lem :
    (a : Answers)
    → let none_yet : Registered = record { server = false; filter = false } in
      let (h, cs) = register_source a in
      let (k, ds) = register_virtual a in
      (h ≡ k)
      × (mappers cs ≡ releases cs)
      × (mappers ds ≡ releases ds)
      × ((after cs none_yet).filter ≡ succeeded h)
      × ((after ds none_yet).filter ≡ succeeded h)
      × ((after cs none_yet).server ≡ succeeded a.server)
      × ((after ds none_yet).server ≡ succeeded a.server)
unfolding register_source register_virtual
register_lem a = ground arith

-- Unregistering: the camera's filter leaves the category exactly where the answer is success; the
-- virtual camera's answer speaks of its server only, and its filter stays where no mapper was made or
-- its removal failed. Every filter mapper is released.
pub unregister_lem :
    (a : Answers)
    → let both : Registered = record { server = true; filter = true } in
      let (h, cs) = unregister_source a in
      let (k, ds) = unregister_virtual a in
      (mappers cs ≡ releases cs)
      × (mappers ds ≡ releases ds)
      × ((after cs both).filter ≡ failed h)
      × ((after cs both).server ≡ failed a.server)
      × (k ≡ a.server)
      × ((after ds both).server ≡ failed a.server)
      × ((after ds both).filter ≡ not (succeeded a.create_mapper && succeeded a.filter))
unfolding unregister_source unregister_virtual
unregister_lem a = ground arith
