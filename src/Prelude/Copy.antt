-- ===== src/Prelude/Copy.antt =====
-- A C byte array as memory addressed by offset: `memcpy` into it, and a slice read from it.
use Prim.Native.Nat.{ℕ, ◌+◌, ◌-◌, ◌<◌, ◌≤◌}
use mathlib.Core.Path.{◌≡◌}
use mathlib.Core.Bool.{◌&&◌}
use mathlib.Core.List.{List}
use native.Mathlib.Omega.{arith}
use spoton.Prelude.Tests.{ltb, leb, if◌then◌else◌}
use spoton.Prelude.Lists.{length, get_or, tabulate}

abbrev pub Memory : Type 0
Memory = ℕ → ℕ

-- `memcpy(m + off, xs, n)` for the `n` bytes `xs`.
pub memcpy : Memory → ℕ → List ℕ → Memory
memcpy m off xs j = if leb off j && ltb j (off + length xs) then get_or xs (j - off) 0 else m j

-- The `n` bytes from `m + off` on.
abbrev pub slice : Memory → ℕ → ℕ → List ℕ
slice m off n = tabulate n (λ i. m (off + i))

pub memcpy_in :
    (m : Memory) (off : ℕ) (xs : List ℕ) (j : ℕ)
    → off ≤ j
    → j < off + length xs
    → memcpy m off xs j ≡ get_or xs (j - off) 0
unfolding memcpy
memcpy_in m off xs j h k = ground arith

pub memcpy_below : (m : Memory) (off : ℕ) (xs : List ℕ) (j : ℕ) → j < off → memcpy m off xs j ≡ m j
unfolding memcpy
memcpy_below m off xs j h = ground arith

pub memcpy_above :
    (m : Memory) (off : ℕ) (xs : List ℕ) (j : ℕ) → off + length xs ≤ j → memcpy m off xs j ≡ m j
unfolding memcpy
memcpy_above m off xs j h = ground arith
