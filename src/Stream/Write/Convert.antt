-- ===== src/Stream/Write/Convert.antt =====
-- The conversion to S32LE loses no sample and keeps its value.
use spoton.Prelude.{
  ℕ, zero, suc, ◌+◌, ◌*◌, ◌≤◌, ◌≡◌, refl, ap, ap₂, ◌∙◌, List, [], ◌∷◌, ◌++◌, arith, length, take,
  drop, length-drop, take-append-drop, map,
}
use spoton.Shim.{s16le}
use spoton.Stream.Write.{FloatToS32, s16_to_s32, batches, pushes}

abbrev pub join : List (List ℕ) → List ℕ
join [] = []
join (xs ∷ rest) = xs ++ join rest

pub join-batches : (f : ℕ) (xs : List ℕ) → length xs ≤ f → join (batches f xs) ≡ xs
unfolding batches
join-batches zero [] h = refl
join-batches zero (x ∷ xs) h = absurd (omega arith)
join-batches (suc f) [] h = refl
join-batches (suc f) (x ∷ xs) h =
    ap (λ r. take 4096 (x ∷ xs) ++ r)
      (join-batches f (drop 4096 (x ∷ xs)) (omega (arith, length-drop 4096 (x ∷ xs))))
    ∙ take-append-drop 4096 (x ∷ xs)

-- The little-endian value of each sample, as the word that its bytes are.
abbrev words16 : List ℕ → List ℕ
words16 [] = []
words16 (a ∷ []) = []
words16 (a ∷ b ∷ bytes) = (a + 256 * b) ∷ words16 bytes

abbrev pub words32 : List ℕ → List ℕ
words32 [] = []
words32 (a ∷ []) = []
words32 (a ∷ b ∷ []) = []
words32 (a ∷ b ∷ c ∷ []) = []
words32 (a ∷ b ∷ c ∷ d ∷ bytes) = (a + 256 * b + 65536 * c + 16_777_216 * d) ∷ words32 bytes

words32-s16 : (xs : List ℕ) → words32 (s16_to_s32 xs) ≡ map (λ v. v * 65536) (words16 xs)
unfolding s16_to_s32
words32-s16 [] = refl
words32-s16 (lo ∷ []) = refl
words32-s16 (lo ∷ hi ∷ xs) = ap₂ ◌∷◌ (omega arith) (words32-s16 xs)

-- The pushes of a write of S16LE samples carry, in order, each sample shifted left by 16 bits.
pub pushes-s16 :
    (conv : FloatToS32) (xs : List ℕ)
    → words32 (join (pushes conv s16le xs)) ≡ map (λ v. v * 65536) (words16 xs)
unfolding pushes
pushes-s16 conv xs =
    ap words32 (join-batches (length (s16_to_s32 xs)) (s16_to_s32 xs) (omega arith))
    ∙ words32-s16 xs
