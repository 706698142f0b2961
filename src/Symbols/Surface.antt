-- ===== src/Symbols/Surface.antt =====
-- The logged comparison is that of the two sets of names.
use Prim.Native.String.{String}
use text.Mathlib.TextEquality.{eq_iff}
use text.Mathlib.Text.{◌==◌}
use spoton.Prelude.{
  ◌≡◌, ◌↔◌, ◌⊎◌, refl, inl, inr, Bool, true, false, ◌&&◌, List, [], ◌∷◌, Bool-cases,
}
use spoton.Symbols.{symbol_in, missing_from, no_names, log_symbol_surface}

-- `s` is one of the names.
abbrev pub Names : String → List String → Type 0
Names s [] = ⊥
Names s (x ∷ xs) = (s ≡ x) ⊎ Names s xs

-- Each of the first names is one of the second.
abbrev pub Covered : List String → List String → Type 0
Covered names list = (s : String) → Names s names → Names s list

symbol_in-Names : (s : String) (xs : List String) → symbol_in s xs ≡ true → Names s xs
unfolding symbol_in
symbol_in-Names s [] e = cc
symbol_in-Names s (x ∷ xs) e = elim (Bool-cases (s == x)) [
  | inl q ↦ inl ((eq_iff s x).0 q)
  | inr q ↦ inr (symbol_in-Names s xs (rw q at e))
]

Names-symbol_in : (s : String) (xs : List String) → Names s xs → symbol_in s xs ≡ true
unfolding symbol_in
Names-symbol_in s [] n = absurd n
Names-symbol_in s (x ∷ xs) (inl q) = rw ((eq_iff s x).1 q) refl
Names-symbol_in s (x ∷ xs) (inr n) = elim (Bool-cases (s == x)) [
  | inl q ↦ rw q refl
  | inr q ↦ rw q (Names-symbol_in s xs n)
]

missing_from-Covered :
    (names list : List String) → no_names (missing_from names list) ≡ true → Covered names list
unfolding missing_from
missing_from-Covered [] list e = λ s n. absurd n
missing_from-Covered (x ∷ names) list e = elim (Bool-cases (symbol_in x list)) [
  | inl q ↦ λ s n. elim n [
    | inl p ↦ rw p (symbol_in-Names x list q)
    | inr m ↦ missing_from-Covered names list (rw q at e) s m
  ]
  | inr q ↦ absurd (nonempty (rw q at e))
]
  where
    nonempty : no_names (x ∷ missing_from names list) ≡ true → ⊥
    nonempty k = cc

Covered-missing_from :
    (names list : List String) → Covered names list → no_names (missing_from names list) ≡ true
unfolding missing_from
Covered-missing_from [] list h = refl
Covered-missing_from (x ∷ names) list h =
    rw (Names-symbol_in x list (h x (inl refl)))
      (Covered-missing_from names list (λ s n. h s (inr n)))

both : (a b : Bool) → a && b ≡ true → (a ≡ true) × (b ≡ true)
both true b e = (refl, e)
both false b e = cc

-- The exact match is logged just if the two lists name the same symbols, whatever their order and
-- their repetitions.
pub log_symbol_surface-Covered :
    (referenced defined : List String)
    → ((log_symbol_surface referenced defined).exact_match ≡ true)
      ↔ (Covered referenced defined × Covered defined referenced)
unfolding log_symbol_surface
log_symbol_surface-Covered r d = (
  λ e.
      let k = both (no_names (missing_from r d)) (no_names (missing_from d r)) e in
      (missing_from-Covered r d k.0, missing_from-Covered d r k.1),
  λ (a, b). rw (Covered-missing_from r d a, Covered-missing_from d r b) refl,
)
