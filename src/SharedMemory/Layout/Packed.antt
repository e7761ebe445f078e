-- ===== src/SharedMemory/Layout/Packed.antt =====
-- Packed structures of little-endian words in memory (`#pragma pack(push, 1)`).
use ps3eye_direct_show.Common.{
  ℕ, zero, suc, ◌+◌, ◌-◌, ◌*◌, ◌/◌, ◌%◌, ◌≤◌, ◌<◌, ◌≡◌, ◌∙◌, ap, refl, List, [], ◌∷◌, arith, ltb,
  Bool-cases, inl, inr,
}
use ps3eye_direct_show.SharedMemory.Layout.{Buffer}

-- Memory from the next address on, and from `k` addresses further on.
abbrev pub next : Buffer → Buffer
next b i = b (suc i)

abbrev pub drop : ℕ → Buffer → Buffer
drop zero b = b
drop (suc k) b = drop k (next b)

-- The word in the first `k` bytes, the lowest first.
abbrev pub read : ℕ → Buffer → ℕ
read zero b = 0
read (suc k) b = b 0 + 256 * read k (next b)

-- The `k` lowest bytes of a value, in front of `rest`.
abbrev pub put : ℕ → ℕ → Buffer → Buffer
put zero v rest i = rest i
put (suc k) v rest zero = v % 256
put (suc k) v rest (suc i) = put k (v / 256) rest i

pub record Field : Type 0 where
  pub size : ℕ
  pub value : ℕ

-- The bytes of a structure in front of `rest`.
abbrev pub pack : List Field → Buffer → Buffer
pack [] rest = rest
pack (f ∷ fs) rest = put f.size f.value (pack fs rest)

abbrev pub size_of : List Field → ℕ
size_of [] = 0
size_of (f ∷ fs) = f.size + size_of fs

put-front : (k v : ℕ) (b c : Buffer) (i : ℕ) → i < k → put k v b i ≡ put k v c i
put-front zero v b c i lt = absurd (omega (arith, lt))
put-front (suc k) v b c zero lt = refl
put-front (suc k) v b c (suc i) lt = put-front k (v / 256) b c i (omega (arith, lt))

put-back : (k v : ℕ) (b : Buffer) (i : ℕ) → k ≤ i → put k v b i ≡ b (i - k)
put-back zero v b i le = ap b (omega arith)
put-back (suc k) v b zero le = absurd (omega (arith, le))
put-back (suc k) v b (suc i) le = put-back k (v / 256) b i (omega (arith, le)) ∙ ap b (omega arith)

-- A byte of the structure does not depend on what follows it.
pub pack-front :
    (fs : List Field) (b c : Buffer) (i : ℕ) → i < size_of fs → pack fs b i ≡ pack fs c i
pack-front [] b c i lt = absurd (omega (arith, lt))
pack-front (f ∷ fs) b c i lt = elim (Bool-cases (ltb i f.size)) [
  | inl here ↦ put-front f.size f.value (pack fs b) (pack fs c) i ground (arith, here)
  | inr behind ↦ ground (
    arith,
    behind,
    put-back f.size f.value (pack fs b) i,
    put-back f.size f.value (pack fs c) i,
    pack-front fs b c (i - f.size),
  )
]

-- Behind the structure stands what follows it.
pub pack-back :
    (fs : List Field) (b : Buffer) (i : ℕ) → size_of fs ≤ i → pack fs b i ≡ b (i - size_of fs)
pack-back [] b i le = ap b (omega arith)
pack-back (f ∷ fs) b i le =
    let there : i - f.size - size_of fs ≡ i - (f.size + size_of fs) = omega arith in
    put-back f.size f.value (pack fs b) i (omega (arith, le))
    ∙ pack-back fs b (i - f.size) (omega (arith, le))
    ∙ ap b there
