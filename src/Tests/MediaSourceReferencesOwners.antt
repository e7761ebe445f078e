-- ===== src/Tests/MediaSourceReferencesOwners.antt =====
-- Runs of the theorems of MediaSource/References/Owners.antt.
use ps3eye_direct_show.MediaSource.References.Owners.{
  Counts, Reach-Counts, created, gets_stream, releases_stream,
}
use ps3eye_direct_show.Common.{ℕ, arith, refl}
use ps3eye_direct_show.MediaSource.References.{
  Objects, add_ref_stream, release_stream, create_instance,
}

Reach-Counts_example :
    let m : ℕ = 1 in
    let n : ℕ = 0 in
    let o : Objects = (release_stream (add_ref_stream create_instance)) in Counts m n o
unfolding create_instance
Reach-Counts_example =
    Reach-Counts {m = 1} {n = 0} {o = release_stream (add_ref_stream create_instance)}
      (releases_stream (gets_stream (omega arith) refl created))
