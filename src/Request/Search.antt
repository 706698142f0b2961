-- ===== src/Request/Search.antt =====
-- `strstr` finds the first occurrence, if there is one.
use spoton.Prelude.{
  ℕ, zero, suc, ◌-◌, ◌≤◌, ◌<◌, ◌≡◌, true, false, Option, none, some, List, [], ◌∷◌, arith, length,
  drop, Bool-cases, inl, inr, length-take, not, is_some, ◌||◌, leb,
}
use mathlib.Core.Option
use spoton.Request.{
  is_prefix, find, Pending, append_read, http_request_buf_size, pending_head_complete,
  pending_try_read, take_read, ReadResult, got, eof, would_block, failed,
}

-- `needle` stands in `hay` at the offset `i`.
abbrev pub OccursAt : List ℕ → List ℕ → ℕ → Type 0
OccursAt needle hay i = (i ≤ length hay) × (is_prefix needle (drop i hay) ≡ true)

-- What `strstr` reports of a text: the first offset, or that there is none.
abbrev pub FirstOf : List ℕ → List ℕ → Option ℕ → Type 0
FirstOf needle hay none = (i : ℕ) → i ≤ length hay → is_prefix needle (drop i hay) ≡ false
FirstOf needle hay (some k) =
    OccursAt needle hay k × ((i : ℕ) → i < k → is_prefix needle (drop i hay) ≡ false)

FirstOf-cons :
    (needle : List ℕ) (c : ℕ) (cs : List ℕ) (o : Option ℕ)
    → is_prefix needle (c ∷ cs) ≡ false
    → FirstOf needle cs o
    → FirstOf needle (c ∷ cs) (Option.map suc o)
FirstOf-cons needle c cs none e h = later
  where
    later : (i : ℕ) → i ≤ suc (length cs) → is_prefix needle (drop i (c ∷ cs)) ≡ false
    later zero p = e
    later (suc i) p = h i (omega arith)
FirstOf-cons needle c cs (some k) e ((a, b), h) = ((omega arith, b), later)
  where
    later : (i : ℕ) → i < suc k → is_prefix needle (drop i (c ∷ cs)) ≡ false
    later zero p = e
    later (suc i) p = h i (omega arith)

-- `strstr` gives the first offset at which the needle occurs, and null only if it occurs nowhere.
pub find-FirstOf : (needle hay : List ℕ) → FirstOf needle hay (find needle hay)
unfolding find
find-FirstOf needle [] = elim (Bool-cases (is_prefix needle [])) [
  | inl e ↦ rw e ((omega arith, e), λ i p. absurd (omega arith))
  | inr e ↦ rw e (nowhere e)
]
  where
    nowhere : is_prefix needle [] ≡ false → (i : ℕ) → i ≤ 0 → is_prefix needle (drop i []) ≡ false
    nowhere e zero p = e
    nowhere e (suc i) p = absurd (omega arith)
find-FirstOf needle (c ∷ cs) = elim (Bool-cases (is_prefix needle (c ∷ cs))) [
  | inl e ↦ rw e ((omega arith, e), λ i p. absurd (omega arith))
  | inr e ↦ rw e (FirstOf-cons needle c cs (find needle cs) e (find-FirstOf needle cs))
]

-- The slot never holds more than its buffer has room for, the terminating NUL included.
pub record Fits (p : Pending) : Type 0 where
  pub bounded : p.len ≤ http_request_buf_size - 1

pub append_read-Fits : (xs : List ℕ) {p : Pending} → Fits p → Fits (append_read p xs)
unfolding append_read
append_read-Fits xs {p} f = record {
  bounded = omega (arith, length-take (http_request_buf_size - 1 - p.len) xs);
}

take_read-Fits : (res : ReadResult) {p : Pending} → Fits p → Fits (take_read p res)
unfolding take_read
take_read-Fits (got []) f = omega arith
take_read-Fits (got (x ∷ xs)) {p} f = append_read-Fits (x ∷ xs) f
take_read-Fits would_block f = f
take_read-Fits eof f = omega arith
take_read-Fits failed f = omega arith

-- A read into the pending slot keeps it within its buffer, however much the peer sent.
pub pending_try_read-Fits :
    (res : ReadResult) {p : Pending} → Fits p → Fits (pending_try_read res p)
unfolding pending_try_read
pending_try_read-Fits res {p} f =
    elim (Bool-cases (not (is_some p.fd) || (pending_head_complete p || leb 4095 p.len))) [
      | inl e ↦ rw e f
      | inr e ↦ rw e (take_read-Fits res f)
    ]
