-- ===== src/Http/Pass/Budget.antt =====
-- The drain loop of a pass ends: HTTP_DRAIN_BUDGET turns are enough for it.
use spoton.Prelude.{
  ℕ, ◌+◌, ◌≤◌, ◌≡◌, refl, inl, inr, Bool, true, false, not, ◌||◌, List, [], ◌∷◌, ◌++◌, arith,
  length, Bool-cases, le→leb, ◌==◌, if◌then◌else◌,
}
use spoton.Http.Loop.{Http}
use spoton.Http.Drain.{
  DrainTick, Drained, drain_write, drain_turn, drain_loop, is_nil, http_drain_budget,
  ring_pop_timed, pop_max, bound_left,
}

not_nil : (xs : List ℕ) → is_nil xs ≡ false → 1 ≤ length xs
not_nil [] e = cc
not_nil (x ∷ xs) e = omega arith

drained-if :
    (a b : Bool) (x y z : Drained)
    → x.stopped ≡ true
    → y.stopped ≡ true
    → (b ≡ false → 1 ≤ z.drained)
    → (if a then x else if b then y else z).stopped ≡ false
    → 1 ≤ (if a then x else if b then y else z).drained
drained-if true b x y z h k n e = cc
drained-if false true x y z h k n e = cc
drained-if false false x y z h k n e = n refl

-- A turn that lets the loop go on has drained at least a byte.
drain_turn-gets_on :
    (k : DrainTick) (o : ℕ) (h : Http)
    → (drain_turn k o h).stopped ≡ false
    → 1 ≤ (drain_turn k o h).drained
unfolding drain_turn drain_write
drain_turn-gets_on k o h e =
    let out =
      ring_pop_timed k.at k.waiting
        (pop_max (
          bound_left h.shim.boundary_at_pushed h.shim.boundary_client_generation
            h.shim.client_generation h.shim.ring.total_popped))
        h.shim in
    drained-if _ (is_nil out.0) _ _ _ refl refl (not_nil out.0) e

stopped_early : {A : Type 0} {x : A} (a b : Bool) (y : A) → (if a || (b || true) then x else y) ≡ x
stopped_early true b y = refl
stopped_early false true y = refl
stopped_early false false y = refl

-- With a turn for each byte that the budget leaves, the loop has ended: further turns change nothing.
pub drain_loop-ends :
    (ks more : List DrainTick) (o drained : ℕ) (h : Http)
    → http_drain_budget ≤ drained + length ks
    → drain_loop (ks ++ more) o drained h ≡ drain_loop ks o drained h
unfolding drain_loop
drain_loop-ends [] [] o drained h b = refl
drain_loop-ends [] (k ∷ ks) o drained h b =
    rw (le→leb http_drain_budget drained (omega arith))
      (stopped_early (not (h.shim.seek_flush_armed == 0)) h.shim.flush_disconnect _)
drain_loop-ends (k ∷ ks) more o drained h b = elim (Bool-cases (drain_turn k o h).stopped) [
  | inl e ↦ rw e refl
  | inr e ↦
      rw
        (drain_loop-ends ks more o (drained + (drain_turn k o h).drained) (drain_turn k o h).http
          (let g = drain_turn-gets_on k o h e in omega arith))
        refl
]
