-- ===== src/SharedMemory/Accounting.antt =====
-- Counting the handles and views that a list of calls opened and closed.
use ps3eye_direct_show.Common.{ℕ, ◌+◌, ◌≡◌, List, [], ◌∷◌, Option, none, some, ◌==◌, if◌then◌else◌}
use ps3eye_direct_show.SharedMemory.Layout.{Call, opened, closed, mapped, unmapped}

abbrev pub one_if_same : ℕ → ℕ → ℕ
one_if_same h k = if h == k then 1 else 0

abbrev pub opens : ℕ → List Call → ℕ
opens h [] = 0
opens h (opened k ∷ cs) = one_if_same h k + opens h cs
opens h (_ ∷ cs) = opens h cs

abbrev pub closes : ℕ → List Call → ℕ
closes h [] = 0
closes h (closed k ∷ cs) = one_if_same h k + closes h cs
closes h (_ ∷ cs) = closes h cs

abbrev pub maps : ℕ → List Call → ℕ
maps p [] = 0
maps p (mapped k ∷ cs) = one_if_same p k + maps p cs
maps p (_ ∷ cs) = maps p cs

abbrev pub unmaps : ℕ → List Call → ℕ
unmaps p [] = 0
unmaps p (unmapped k ∷ cs) = one_if_same p k + unmaps p cs
unmaps p (_ ∷ cs) = unmaps p cs

-- How often a field holds the handle.
abbrev pub in_field : ℕ → Option ℕ → ℕ
in_field h none = 0
in_field h (some k) = one_if_same h k

-- Of a handle `h`, as many are open as `owned` fields hold; of a view at `h`, as many are mapped as
-- `viewed` fields hold.
pub record IsBalanced (h owned viewed : ℕ) (calls : List Call) : Type 0 where
  pub handles : opens h calls ≡ closes h calls + owned
  pub views : maps h calls ≡ unmaps h calls + viewed
