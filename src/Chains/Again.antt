-- ===== src/Chains/Again.antt =====
-- Elements that are added again after they were taken out.
use workqueue.Chains.Shape.{AreApart, Runs}
use workqueue.Chains.Store.{put_other, put_same, put, Chain, Store}
use workqueue.Chains.Calls.{chain_length, last, stack_pop, queue_pop, stack_push, count, queue_push}
use workqueue.Prelude.{
  ◌∙◌, sym, true, arith, ◌==◌, ◌≡◌, ◌≢◌, ℕ, zero, suc, refl, none, some, false, [], ◌∷◌,
}

loops :
    (fuel : ℕ) (h : Store) (a b : ℕ)
    → a ≢ 0
    → b ≢ 0
    → h a ≡ b
    → h b ≡ a
    → (count fuel h a ≡ none) × (count fuel h b ≡ none)
unfolding count
loops zero h a b na nb ab ba = (refl, refl)
loops (suc fuel) h a b na nb ab ba =
    let (from_a, from_b) = loops fuel h a b na nb ab ba in
    let here_a : (a == 0) ≡ false = ground arith in
    let here_b : (b == 0) ≡ false = ground arith in
    (rw (here_a, ab, from_b) refl, rw (here_b, ba, from_a) refl)

abbrev pub chain : Store → ℕ → Chain
chain h p = record { head = p; links = h }

queue_pop-held : (h : Store) (p q : ℕ) → p ≢ 0 → h p ≡ q → queue_pop (chain h p) ≡ (p, chain h q)
unfolding queue_pop
queue_pop-held h p q nz e = let held : (p == 0) ≡ false = ground arith in rw (held, e) refl

stack_pop-held : (h : Store) (p q : ℕ) → p ≢ 0 → h p ≡ q → stack_pop (chain h p) ≡ (p, chain h q)
unfolding stack_pop
stack_pop-held h p q nz e = let held : (p == 0) ≡ false = ground arith in rw (held, e) refl

-- `_queue_pop` leaves the link of the element that it returns: pushed again behind the one other
-- element, it closes a ring, and no amount of fuel ends the loop of `_queue_length`.
pub queue_push-loops :
    (fuel : ℕ) (h : Store) (a b : ℕ)
    → Runs h a (a ∷ b ∷ [])
    → AreApart (a ∷ b ∷ [])
    → let (p, c) = queue_pop (chain h a) in
      (c' : Chain) × (queue_push 1 c p ≡ some c') × (chain_length fuel c' ≡ none)
unfolding queue_push last chain_length Runs AreApart
queue_push-loops fuel h a b (at, na, (ab, nb, end)) (ba, d) =
    let popped = queue_pop-held h a b na ab in
    let here_a : (a == 0) ≡ false = ground arith in
    let here_b : (b == 0) ≡ false = ground arith in
    let ends : (h b == 0) ≡ true = ground arith in
    rw (popped, here_a, here_b, ends)
      (
        chain (put h b a) b,
        refl,
        (loops fuel (put h b a) b a nb na (put_same h b a)
            (put_other h b a a (λ e. ba.0 (sym e)) ∙ ab)).0,
      )

-- `_stack_pop` leaves the link of the element that it returns, and `_stack_push` onto an empty
-- stack does not write it: taken from a stack of two and pushed again once the other is taken too,
-- it brings that one back.
pub stack_push-brings_back :
    (h : Store) (a b : ℕ)
    → Runs h b (b ∷ a ∷ [])
    → let (p, c) = stack_pop (chain h b) in stack_push (stack_pop c).1 p ≡ chain h b
unfolding stack_push Runs
stack_push-brings_back h a b (at, nb, (ba, na, end)) =
    let here_b : (b == 0) ≡ false = ground arith in
    rw (stack_pop-held h b a nb ba, stack_pop-held h a 0 na end, here_b) refl
