-- ===== src/MediaSource/References/Owners.antt =====
-- Counts against the references that an application owns.
use ps3eye_direct_show.Common.{
  ℕ, suc, ◌+◌, ◌^◌, ◌<◌, ◌≡◌, Bool, true, false, ◌==◌, if◌then◌else◌, arith, Bool-cases, inl, inr,
  refl,
}
use ps3eye_direct_show.MediaSource.References.{
  Objects, Interface, source_has, stream_has, add_ref_source, release_source, query_source,
  add_ref_stream, release_stream, query_stream, get_media_source, reset_stream, create_instance,
}

abbrev pub one_if : Bool → ℕ
one_if true = 1
one_if false = 0

-- The states that an application can reach that owns `m` references to the source and `n` to the
-- stream, fewer than 2 ^ 32 less 2 of each, and that releases only what it owns.
pub data Reach : ℕ → ℕ → Objects → Type 0 where
  created : Reach 1 0 create_instance
  adds_source :
      {m n : ℕ} {o : Objects}
      → suc m < 2 ^ 32
      → 0 < m
      → Reach m n o
      → Reach (suc m) n (add_ref_source o)
  queries_source :
      {m n : ℕ} {o : Objects} (iid : Interface)
      → suc m < 2 ^ 32
      → 0 < m
      → Reach m n o
      → Reach (if source_has iid then suc m else m) n (query_source false iid o).1
  releases_source : {m n : ℕ} {o : Objects} → Reach (suc m) n o → Reach m n (release_source o)
  -- MENewStream would hand the stream out; it may come from any event
  gets_stream :
      {m n : ℕ} {o : Objects}
      → n + 3 < 2 ^ 32
      → o.holds_stream ≡ true
      → Reach m n o
      → Reach m (suc n) (add_ref_stream o)
  adds_stream :
      {m n : ℕ} {o : Objects}
      → n + 3 < 2 ^ 32
      → 0 < n
      → Reach m n o
      → Reach m (suc n) (add_ref_stream o)
  queries_stream :
      {m n : ℕ} {o : Objects} (iid : Interface)
      → n + 3 < 2 ^ 32
      → 0 < n
      → Reach m n o
      → Reach m (if stream_has iid then suc n else n) (query_stream false iid o).1
  releases_stream : {m n : ℕ} {o : Objects} → Reach m (suc n) o → Reach m n (release_stream o)
  gets_source :
      {m n : ℕ} {o : Objects}
      → suc m < 2 ^ 32
      → 0 < n
      → Reach m n o
      → Reach (if o.stream_shut then m else suc m) n (get_media_source o)
  shuts : {m n : ℕ} {o : Objects} → 0 < m → Reach m n o → Reach m n (reset_stream o)

-- What the counts are, and which objects live.
pub record Counts (m n : ℕ) (o : Objects) : Type 0 where
  pub source_counted : o.source_refs ≡ m
  pub source_lives : o.source_gone ≡ (m == 0)
  pub source_small : m < 2 ^ 32
  pub stream_counted : o.stream_refs ≡ 1 + one_if o.holds_stream + n
  pub stream_lives : o.stream_gone ≡ false
  pub stream_small : n + 2 < 2 ^ 32
  pub stream_kept : o.stream_shut ≡ (if o.holds_stream then false else true)
  pub gone_lets_go : (if o.source_gone then o.holds_stream else false) ≡ false

created-Counts : Counts 1 0 create_instance
unfolding create_instance
created-Counts = ground arith

module _ {m n : ℕ} {o : Objects} (v : Counts m n o) where
  adds_source-Counts : suc m < 2 ^ 32 → 0 < m → Counts (suc m) n (add_ref_source o)
  unfolding add_ref_source
  adds_source-Counts small own = ground arith

  adds_stream-Counts : n + 3 < 2 ^ 32 → Counts m (suc n) (add_ref_stream o)
  unfolding add_ref_stream
  adds_stream-Counts small = ground arith

  releases_stream-Counts : (k : ℕ) → n ≡ suc k → Counts m k (release_stream o)
  unfolding release_stream
  releases_stream-Counts k e = ground arith

  shuts-Counts : Counts m n (reset_stream o)
  unfolding reset_stream
  shuts-Counts = ground arith

  releases_source-Counts : (k : ℕ) → m ≡ suc k → Counts k n (release_source o)
  unfolding release_source
  releases_source-Counts k e = ground arith

  gets_source-Counts :
      suc m < 2 ^ 32 → Counts (if o.stream_shut then m else suc m) n (get_media_source o)
  unfolding get_media_source
  gets_source-Counts small = ground arith

-- In every state that an application reaches: the source's count is the number of references that the
-- application owns, and the source is destroyed exactly when the last of them is released, with its
-- stream shut down, so that the stream never hands out a source that is gone. The stream's count is one
-- more than its owners, and so it is never destroyed, whoever lets it go.
pub Reach-Counts : {m n : ℕ} {o : Objects} → Reach m n o → Counts m n o
unfolding query_source query_stream
Reach-Counts created = created-Counts
Reach-Counts (adds_source small own t) = adds_source-Counts (Reach-Counts t) small own
Reach-Counts (queries_source iid small own t) = elim (Bool-cases (source_has iid)) [
  | inl has ↦ rw has (adds_source-Counts (Reach-Counts t) small own)
  | inr lacks ↦ rw lacks (Reach-Counts t)
]
Reach-Counts (releases_source t) = releases_source-Counts (Reach-Counts t) _ refl
Reach-Counts (gets_stream small holds t) = adds_stream-Counts (Reach-Counts t) small
Reach-Counts (adds_stream small own t) = adds_stream-Counts (Reach-Counts t) small
Reach-Counts (queries_stream iid small own t) = elim (Bool-cases (stream_has iid)) [
  | inl has ↦ rw has (adds_stream-Counts (Reach-Counts t) small)
  | inr lacks ↦ rw lacks (Reach-Counts t)
]
Reach-Counts (releases_stream t) = releases_stream-Counts (Reach-Counts t) _ refl
Reach-Counts (gets_source small own t) = gets_source-Counts (Reach-Counts t) small
Reach-Counts (shuts own t) = shuts-Counts (Reach-Counts t)
