-- ===== src/Ring/Fifo.antt =====
-- The ring as a queue: the bytes it holds, oldest first, and what the copies, which go round at the
-- capacity, do to them.
use spoton.Prelude.{
  ℕ, ◌+◌, ◌-◌, ◌%◌, ◌≤◌, ◌<◌, ◌≡◌, refl, ap, ap₂, sym, ◌∙◌, ◌⊎◌, inl, inr, min, List, ◌++◌, arith,
  length, take, drop, get_or, tabulate, length-take, length-drop, tabulate_ext, tabulate_shift,
  tabulate-add, tabulate-get_or, take-tabulate, drop-tabulate, get_or-take, get_or-drop, Memory,
  memcpy, memcpy_in, memcpy_below, memcpy_above,
}
use native.Mathlib.Nat.{mod-lt, mod-eq_of_lt, mod-eq-sub-mod, mod-add-mod}
use native.Mathlib.Decide.{dec_lt}
use spoton.Time.{Clock}
use spoton.Ring.{Ring}
use spoton.Ring.Pop.{pop_bytes, pop_advance}
use spoton.Ring.Push.{push_copy}
use spoton.Ring.Valid.{IsValid}

-- The held bytes, oldest first.
abbrev pub contents : Ring → List ℕ
contents r = tabulate r.fill (λ i. r.buf ((r.tail + i) % r.capacity))

-- One step round the ring.
wrap :
    (t i cap : ℕ)
    → t < cap
    → i ≤ cap
    → ((t + i < cap) × ((t + i) % cap ≡ t + i)) ⊎ ((cap ≤ t + i) × ((t + i) % cap ≡ t + i - cap))
wrap t i cap h k = elim (dec_lt (t + i) cap) [
  | yes p ↦ inl (p, mod-eq_of_lt p)
  | no p ↦ inr (
    omega arith,
    mod-eq-sub-mod {n = t + i} {m = cap} (omega arith)
        ∙ mod-eq_of_lt {n = t + i - cap} {m = cap} (omega arith),
  )
]

-- The buffer after the two copies of `push_copy`.
abbrev written : Memory → ℕ → ℕ → List ℕ → Memory
written m head cap xs =
    let first = min (length xs) (cap - head) in
    memcpy (memcpy m head (take first xs)) 0 (drop first xs)

module _ (m : Memory) (head cap : ℕ) (xs : List ℕ) (hh : head < cap) (hn : length xs ≤ cap) where
  abbrev first : ℕ
  first = min (length xs) (cap - head)

  sizes : (length (take first xs) ≡ first) × (length (drop first xs) ≡ length xs - first)
  sizes = (omega (arith, length-take first xs), omega (arith, length-drop first xs))

  written_ahead :
      (j : ℕ)
      → head ≤ j
      → j < cap
      → j < head + length xs
      → written m head cap xs j ≡ get_or xs (j - head) 0
  written_ahead j a b c =
      memcpy_above (memcpy m head (take first xs)) 0 (drop first xs) j (omega (arith, sizes.1))
      ∙ memcpy_in m head (take first xs) j a (omega (arith, sizes.0))
      ∙ get_or-take first (j - head) xs 0 (omega arith)

  written_wrapped :
      (j : ℕ) → j + cap < head + length xs → written m head cap xs j ≡ get_or xs (j + cap - head) 0
  written_wrapped j a =
      memcpy_in (memcpy m head (take first xs)) 0 (drop first xs) j (omega arith)
        (omega (arith, sizes.1))
      ∙ get_or-drop first (j - 0) xs 0
      ∙ ap (λ k. get_or xs k 0) (omega arith)

  written_else :
      (j : ℕ)
      → (j < head) ⊎ (head + length xs ≤ j)
      → head + length xs ≤ j + cap
      → written m head cap xs j ≡ m j
  written_else j (inl a) b =
      memcpy_above (memcpy m head (take first xs)) 0 (drop first xs) j (omega (arith, sizes.1))
      ∙ memcpy_below m head (take first xs) j a
  written_else j (inr a) b =
      memcpy_above (memcpy m head (take first xs)) 0 (drop first xs) j (omega (arith, sizes.1))
      ∙ memcpy_above m head (take first xs) j (omega (arith, sizes.0))

  -- No byte at or past the capacity is written.
  written_outside : (j : ℕ) → cap ≤ j → written m head cap xs j ≡ m j
  written_outside j a =
      memcpy_above (memcpy m head (take first xs)) 0 (drop first xs) j (omega (arith, sizes.1))
      ∙ memcpy_above m head (take first xs) j (omega (arith, sizes.0))

module _ {r : Ring} (v : IsValid r) (xs : List ℕ) (room : length xs + r.fill ≤ r.capacity) where
  head_in : r.head < r.capacity
  head_in =
      let e = v.head_eq in omega (arith, mod-lt (r.tail + r.fill) {m = r.capacity} (omega arith))

  at_head :
      ((r.tail + r.fill < r.capacity) × (r.head ≡ r.tail + r.fill))
      ⊎ ((r.capacity ≤ r.tail + r.fill) × (r.head ≡ r.tail + r.fill - r.capacity))
  at_head = elim (wrap r.tail r.fill r.capacity v.tail_in v.fill_le) [
    | inl (p, e) ↦ inl (p, v.head_eq ∙ e)
    | inr (p, e) ↦ inr (p, v.head_eq ∙ e)
  ]

  -- A new byte that stands at the head plus its index, before the end of the buffer.
  ahead :
      (k : ℕ)
      → k < length xs
      → (r.tail + (r.fill + k)) % r.capacity ≡ r.head + k
      → written r.buf r.head r.capacity xs ((r.tail + (r.fill + k)) % r.capacity) ≡ get_or xs k 0
  ahead k h e =
      written_ahead r.buf r.head r.capacity xs head_in (omega arith)
        ((r.tail + (r.fill + k)) % r.capacity) (omega arith)
        (mod-lt (r.tail + (r.fill + k)) {m = r.capacity} (omega arith)) (omega arith)
      ∙ ap (λ i. get_or xs i 0) (omega arith)

  old_byte :
      (i : ℕ)
      → i < r.fill
      → written r.buf r.head r.capacity xs ((r.tail + i) % r.capacity)
        ≡ r.buf ((r.tail + i) % r.capacity)
  old_byte i h = elim (wrap r.tail i r.capacity v.tail_in (omega arith)) [
    | inl (p, e) ↦
        let e' : (r.tail + i) % r.capacity ≡ r.tail + i = e in
        written_else r.buf r.head r.capacity xs head_in (omega arith) ((r.tail + i) % r.capacity)
          (elim at_head [ inl (q, g) ↦ inl (omega arith) | inr (q, g) ↦ inr (omega arith) ])
          (elim at_head [ inl (q, g) ↦ omega arith | inr (q, g) ↦ omega arith ])
    | inr (p, e) ↦
        let e' : (r.tail + i) % r.capacity ≡ r.tail + i - r.capacity = e in
        written_else r.buf r.head r.capacity xs head_in (omega arith) ((r.tail + i) % r.capacity)
          (elim at_head [ inl (q, g) ↦ inl (omega arith) | inr (q, g) ↦ inl (omega arith) ])
          (elim at_head [ inl (q, g) ↦ omega arith | inr (q, g) ↦ omega arith ])
  ]

  new_byte :
      (k : ℕ)
      → k < length xs
      → written r.buf r.head r.capacity xs ((r.tail + (r.fill + k)) % r.capacity) ≡ get_or xs k 0
  new_byte k h = elim (wrap r.tail (r.fill + k) r.capacity v.tail_in (omega arith)) [
    | inl (p, e) ↦ ahead k h (elim at_head [ inl (q, g) ↦ omega arith | inr (q, g) ↦ omega arith ])
    | inr (p, e) ↦ elim at_head [
      | inl (q, g) ↦
          written_wrapped r.buf r.head r.capacity xs head_in (omega arith)
            ((r.tail + (r.fill + k)) % r.capacity) (omega arith)
          ∙ ap (λ i. get_or xs i 0) (omega arith)
      | inr (q, g) ↦ ahead k h (omega arith)
    ]
  ]

  -- The copies of `_ring_push` append their bytes to the queue.
  pub push_copy-contents : contents (push_copy xs r) ≡ contents r ++ xs
  unfolding push_copy
  push_copy-contents =
      tabulate-add r.fill (length xs)
        (λ i. written r.buf r.head r.capacity xs ((r.tail + i) % r.capacity))
      ∙ ap₂ ◌++◌ (tabulate_ext r.fill _ _ old_byte)
          (tabulate_ext (length xs) _ (λ k. get_or xs k 0) new_byte ∙ tabulate-get_or xs 0)

module _ {r : Ring} (v : IsValid r) (chunk : ℕ) (held : chunk ≤ r.fill) where
  taken :
      (i : ℕ)
      → i < chunk - min chunk (r.capacity - r.tail)
      → r.buf ((r.tail + (min chunk (r.capacity - r.tail) + i)) % r.capacity) ≡ r.buf (0 + i)
  taken i h =
      let full : min chunk (r.capacity - r.tail) ≡ r.capacity - r.tail = omega arith in
      ap r.buf
        (elim (wrap r.tail (min chunk (r.capacity - r.tail) + i) r.capacity v.tail_in
          (omega arith)) [ inl (p, e) ↦ absurd (omega arith) | inr (p, e) ↦ omega arith ])

  front :
      (i : ℕ)
      → i < min chunk (r.capacity - r.tail)
      → r.buf ((r.tail + i) % r.capacity) ≡ r.buf (r.tail + i)
  front i h = ap r.buf (mod-eq_of_lt (omega arith))

  -- The copies of `_ring_pop_timed` are the oldest bytes, in order, and what stays is the rest.
  pub pop_bytes-contents : pop_bytes r chunk ≡ take chunk (contents r)
  unfolding pop_bytes
  pop_bytes-contents = sym (
      take-tabulate chunk r.fill (λ i. r.buf ((r.tail + i) % r.capacity)) held
      ∙ tabulate_shift (min chunk (r.capacity - r.tail) + (chunk - min chunk (r.capacity - r.tail)))
          chunk _ (λ i. r.buf ((r.tail + i) % r.capacity)) (omega arith) (λ i p. refl)
      ∙ tabulate-add (min chunk (r.capacity - r.tail)) (chunk - min chunk (r.capacity - r.tail)) _
      ∙ ap₂ ◌++◌ (tabulate_ext _ _ _ front) (tabulate_ext _ _ _ taken))

  pub pop_advance-contents :
      (c : Clock) → contents (pop_advance c r chunk) ≡ drop chunk (contents r)
  unfolding pop_advance
  pop_advance-contents c =
      tabulate_ext (r.fill - chunk) _ (λ i. r.buf ((r.tail + (chunk + i)) % r.capacity))
        (λ i p.
          ap r.buf
            (mod-add-mod (r.tail + chunk) r.capacity i ∙ ap (λ n. n % r.capacity) (omega arith)))
      ∙ sym (
          ap (λ n. drop chunk (tabulate n (λ i. r.buf ((r.tail + i) % r.capacity)))) (omega arith)
          ∙ drop-tabulate chunk (r.fill - chunk) (λ i. r.buf ((r.tail + i) % r.capacity)))
