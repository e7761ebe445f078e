-- ===== src/SharedMemory/Interleaving/Progress/Reader.antt =====
-- The reader, too, gives the mutex back.
use ps3eye_direct_show.Common.{
  ℕ, zero, suc, ◌+◌, ◌≤◌, ◌≡◌, ◌⊎◌, inl, inr, refl, true, false, Bool, none, some, [], arith, ◌<◌,
  ◌==◌, ◌||◌, min_of, Bool-cases,
}
use ps3eye_direct_show.SharedMemory.Layout.{Buffer}
use ps3eye_direct_show.SharedMemory.Session.{Post}
use ps3eye_direct_show.SharedMemory.Interleaving.{
  writes, w_waiting, is_free, reader, nobody, Wanted, Reading, r_outside, r_waiting, r_testing,
  r_copying, r_numbering, Writing, Shared, State, silent, got, put_byte, reads, read_step, step,
  run,
}
use ps3eye_direct_show.SharedMemory.Interleaving.Progress.{
  IsWritten, run-IsWritten, first, Comes, goes_on,
}

abbrev pub IsRead : State → Type 0
IsRead t = (t.reading ≡ r_outside) × (is_free t.shared.owner ≡ true)

abbrev pub reading_at : Reading → Shared → Writing → State
reading_at r c w = record { shared = c; writing = w; reading = r }

abbrev next_byte : ℕ → Shared → Buffer → Buffer
next_byte k c b = put_byte k (c.region.bytes (c.region.header.data_offset + k)) b

copy_over :
    (q : Wanted) (size k : ℕ) (b : Buffer) (c : Shared) (w : Writing)
    → size ≤ k
    → step reads (reading_at (r_copying q size k b) c w)
      ≡ some (silent, reading_at (r_numbering q b) c w)
unfolding step read_step
copy_over q size k b c w h = ground arith

copy_more :
    (q : Wanted) (size k : ℕ) (b : Buffer) (c : Shared) (w : Writing)
    → k < size
    → step reads (reading_at (r_copying q size k b) c w)
      ≡ some (silent, reading_at (r_copying q size (suc k) (next_byte k c b)) c w)
unfolding step read_step
copy_more q size k b c w h = ground arith

numbering-IsRead :
    (q : Wanted) (b : Buffer) (c : Shared) (w : Writing)
    → Comes IsRead (run (first 3 reads []) (reading_at (r_numbering q b) c w))
unfolding run step read_step
numbering-IsRead q b c w = (refl, refl)

copying-IsRead :
    (d k size : ℕ) (q : Wanted) (b : Buffer) (c : Shared) (w : Writing)
    → k + d ≡ size
    → Comes IsRead (run (first d reads (first 4 reads [])) (reading_at (r_copying q size k b) c w))
copying-IsRead zero k size q b c w e =
    goes_on IsRead reads (first 3 reads []) (reading_at (r_copying q size k b) c w)
      (reading_at (r_numbering q b) c w) silent (copy_over q size k b c w (omega (arith, e)))
      (numbering-IsRead q b c w)
copying-IsRead (suc d) k size q b c w e =
    goes_on IsRead reads (first d reads (first 4 reads [])) (reading_at (r_copying q size k b) c w)
      (reading_at (r_copying q size (suc k) (next_byte k c b)) c w) silent
      (copy_more q size k b c w (omega (arith, e)))
      (copying-IsRead d (suc k) size q (next_byte k c b) c w (omega (arith, e)))

abbrev refused : Shared → Bool
refused c =
    c.region.header.server_pid == 0 || c.region.header.frame_number == c.client.last_frame_number

test_refused :
    (q : Wanted) (c : Shared) (w : Writing)
    → refused c ≡ true
    → step reads (reading_at (r_testing q) c w)
      ≡ some (got q none, reading_at r_outside (record c { owner = nobody }) w)
unfolding step read_step
test_refused q c w h = rw h refl

test_passed :
    (q : Wanted) (c : Shared) (w : Writing)
    → refused c ≡ false
    → step reads (reading_at (r_testing q) c w)
      ≡ some
          (silent, reading_at (r_copying q (min_of q.room c.region.header.data_size) 0 q.dest) c w)
unfolding step read_step
test_passed q c w h = rw h refl

takes :
    (q : Wanted) (c : Shared) (w : Writing)
    → is_free c.owner ≡ true
    → step reads (reading_at (r_waiting q) c w)
      ≡ some (silent, reading_at (r_testing q) (record c { owner = reader }) w)
unfolding step read_step
takes q c w free = ground arith

nothing_left : (s : State) → IsRead s → Comes IsRead (run [] s)
unfolding run
nothing_left s h = h

-- A reader at the wait for a free mutex is through after two of its own steps, where it is refused, or
-- after as many as it copies bytes and six more, and leaves the mutex free again.
pub run-IsRead :
    (q : Wanted) (c : Shared) (w : Writing)
    → is_free c.owner ≡ true
    → let s = reading_at (r_waiting q) c w in
      let size = min_of q.room c.region.header.data_size in
      Comes IsRead (run (first 2 reads []) s)
      ⊎ Comes IsRead (run (first 2 reads (first size reads (first 4 reads []))) s)
run-IsRead q c w free =
    let c' = record c { owner = reader } in
    let size = min_of q.room c.region.header.data_size in
    let s = reading_at (r_waiting q) c w in
    let t = reading_at (r_testing q) c' w in
    elim (Bool-cases (refused c')) [
      | inl h ↦
          let u = reading_at r_outside (record c' { owner = nobody }) w in
          inl (
            goes_on IsRead reads (first 1 reads []) s t silent (takes q c w free) (
              goes_on IsRead reads [] t u (got q none) (test_refused q c' w h)
                (nothing_left u (refl, refl))))
      | inr h ↦
          let rest = first size reads (first 4 reads []) in
          inr (
            goes_on IsRead reads (first 1 reads rest) s t silent (takes q c w free) (
              goes_on IsRead reads rest t (reading_at (r_copying q size 0 q.dest) c' w) silent
                (test_passed q c' w h) (copying-IsRead size 0 size q q.dest c' w (omega arith))))
    ]

-- Whichever process is let in at a free mutex gives it back: the writer after as many of its own steps
-- as the frame has bytes and six more, the reader after two where it is refused, or as many as it
-- copies bytes and six more.
pub run-Comes :
    (p : Post) (q : Wanted) (c : Shared) (w : Writing) (r : Reading)
    → is_free c.owner ≡ true
    → let s = reading_at (r_waiting q) c w in
      let size = min_of q.room c.region.header.data_size in
      Comes IsWritten (
        run
          (first 1 writes (first p.size writes (first 5 writes [])))
          (record { shared = c; writing = w_waiting p; reading = r }))
      × (Comes IsRead (run (first 2 reads []) s)
          ⊎ Comes IsRead (run (first 2 reads (first size reads (first 4 reads []))) s))
run-Comes p q c w r free = (run-IsWritten p c r free, run-IsRead q c w free)
