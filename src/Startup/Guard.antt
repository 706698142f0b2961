-- ===== src/Startup/Guard.antt =====
-- The crashpad handler that inherits the library starts no server.
use spoton.Prelude.{
  ℕ, zero, suc, ◌+◌, ◌-◌, ◌≤◌, ◌≡◌, ◌≢◌, refl, ap, ◌∙◌, inl, inr, true, false, none, some, List, [],
  ◌∷◌, ◌++◌, arith, length, take, drop, length-append, is_some, Memory, ◌==◌, Option-cases,
  if◌then◌else◌,
}
use mathlib.Core.Path.{subst}
use spoton.Time.{Target}
use spoton.Env.{Environ}
use spoton.Request.{codes, c_str, is_prefix, find, strstr}
use spoton.Request.Search.{FirstOf, find-FirstOf}
use spoton.Startup.{SystemCalls, no_server, without_http, spaced, is_crashpad, fake_libpulse_init}

abbrev HasNoNul : List ℕ → Type 0
HasNoNul [] = Unit {0}
HasNoNul (c ∷ cs) = (c ≢ 0) × HasNoNul cs

spaced-HasNoNul : (s : List ℕ) → HasNoNul (spaced s)
spaced-HasNoNul [] = tt
spaced-HasNoNul (c ∷ cs) = ((λ e. ground arith), spaced-HasNoNul cs)

c_str-whole : (s : List ℕ) → HasNoNul s → c_str s ≡ s
unfolding c_str
c_str-whole [] h = refl
c_str-whole (c ∷ cs) h = ground (arith, c_str-whole cs h.1)

-- A text that has no NUL is left as it is.
spaced-whole : (s : List ℕ) → HasNoNul s → spaced s ≡ s
spaced-whole [] h = refl
spaced-whole (c ∷ cs) h = ground (arith, spaced-whole cs h.1)

spaced-append : (s t : List ℕ) → spaced (s ++ t) ≡ spaced s ++ spaced t
spaced-append [] t = refl
spaced-append (c ∷ cs) t = ap (λ r. (if c == 0 then 32 else c) ∷ r) (spaced-append cs t)

is_prefix-append : (s t : List ℕ) → is_prefix s (s ++ t) ≡ true
unfolding is_prefix
is_prefix-append [] t = refl
is_prefix-append (c ∷ cs) t = ground (arith, is_prefix-append cs t)

drop-append_self : (s t : List ℕ) → drop (length s) (s ++ t) ≡ t
drop-append_self [] t = refl
drop-append_self (c ∷ cs) t = drop-append_self cs t

found :
    (needle before behind : List ℕ) → is_some (find needle (before ++ (needle ++ behind))) ≡ true
found needle before behind =
    let hay = before ++ (needle ++ behind) in
    let f = find-FirstOf needle hay in
    elim (Option-cases (find needle hay)) [
      | inr (k, e) ↦ rw e refl
      | inl e ↦ absurd (missed (subst (λ o. FirstOf needle hay o) e f))
    ]
  where
    missed : FirstOf needle (before ++ (needle ++ behind)) none → ⊥
    missed g =
        let no = g (length before) (omega (arith, length-append before (needle ++ behind))) in
        let yes =
          ap (is_prefix needle) (drop-append_self before (needle ++ behind))
          ∙ is_prefix-append needle behind in
        cc

take-append :
    (n : ℕ) (xs ys : List ℕ) → length xs ≤ n → take n (xs ++ ys) ≡ xs ++ take (n - length xs) ys
take-append n [] ys h = ap (λ k. take k ys) (omega arith)
take-append zero (x ∷ xs) ys h = absurd (omega arith)
take-append (suc n) (x ∷ xs) ys h =
    ap (λ r. x ∷ r)
      (take-append n xs ys (omega arith)
        ∙ ap (λ k. xs ++ take k ys)
            (let e : n - length xs ≡ suc n - suc (length xs) = omega arith in e))

abbrev crashpad : List ℕ
crashpad = codes "--type=crashpad"

seen :
    (before behind : List ℕ)
    → length before + 15 ≤ 4095
    → is_crashpad (some (before ++ (crashpad ++ behind))) ≡ true
unfolding is_crashpad strstr
seen before behind h =
    let m = 4095 - length before in
    let cut : take 4095 (before ++ (crashpad ++ behind))
        ≡ before ++ (crashpad ++ take (m - 15) behind) =
      take-append 4095 before (crashpad ++ behind) (omega arith)
      ∙ ap (λ r. before ++ r) (take-append m crashpad behind (omega arith)) in
    let all = take 4095 (before ++ (crashpad ++ behind)) in
    let clear : c_str (spaced all) ≡ spaced before ++ (crashpad ++ spaced (take (m - 15) behind)) =
      c_str-whole (spaced all) (spaced-HasNoNul all)
      ∙ ap spaced cut
      ∙ spaced-append before (crashpad ++ take (m - 15) behind)
      ∙ ap (λ r. spaced before ++ r) (spaced-append crashpad (take (m - 15) behind)) in
    ap (λ x. is_some (find crashpad x)) clear
    ∙ found crashpad (spaced before) (spaced (take (m - 15) behind))

-- A command line that has `--type=crashpad` in its first 4095 bytes, whatever stands before and
-- behind it and wherever its arguments end: the constructor sets up no HTTP mode, touches no port
-- file, and starts no thread, whatever the environment says.
pub fake_libpulse_init-crashpad :
    (t : Target) (e : Environ) (before behind : List ℕ) (s : SystemCalls) (block : Memory)
    → length before + 15 ≤ 4095
    → fake_libpulse_init t e (some (before ++ (codes "--type=crashpad" ++ behind))) s block
      ≡ record { init_done = false; server = no_server; shim = without_http t }
unfolding fake_libpulse_init
fake_libpulse_init-crashpad t e before behind s block h = rw (seen before behind h) refl
