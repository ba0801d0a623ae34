-- ===== src/Chains/Stacks.antt =====
-- Stacks of elements that are not linked yet, and linking into a list.
use workqueue.Chains.Queues.{IsLoose, IsFresh, Holds}
use workqueue.Chains.Calls.{queue_push, stack_push, list_link, chain_length, stack_pop}
use workqueue.Chains.Shape.{Runs-put, count-Runs, Runs, AreApart}
use workqueue.Chains.Store.{put_same, put, Store, Chain}
use workqueue.Prelude.{
  All-combine, ◌∙◌, sym, ◌<◌, subst, reverse, arith, ap₂, reverse_aux, ◌≢◌, ◌==◌, length, All, ◌≡◌,
  List, ℕ, zero, suc, refl, some, false, [], ◌∷◌,
}

module _ (c : Chain) (ptr : ℕ) where
  stack_push-Holds :
      (xs : List ℕ) → Holds c xs → IsFresh c xs ptr → Holds (stack_push c ptr) (ptr ∷ xs)
  unfolding stack_push Runs AreApart
  stack_push-Holds [] v f =
      let here : (ptr == 0) ≡ false = ground (arith, f.address) in
      rw (here, v.runs) (record { runs = (refl, f.address, f.unlinked); apart = (tt, tt) })
  stack_push-Holds (x ∷ xs) v f =
      let here : (ptr == 0) ≡ false = ground (arith, f.address) in
      let held : (c.head == 0) ≡ false = ground (arith, v.runs.0, v.runs.1) in
      rw (here, held)
        (record {
          runs = (
            refl,
            f.address,
            subst (λ p. Runs (put c.links ptr c.head) p (x ∷ xs))
                (sym (put_same c.links ptr c.head))
                (Runs-put c.links c.head ptr c.head (x ∷ xs) f.outside v.runs),
          );
          apart = (f.outside, v.apart);
        })

  stack_push-frame : (q : ℕ) → q ≢ ptr → (stack_push c ptr).links q ≡ c.links q
  unfolding stack_push
  stack_push-frame q apart = ground arith

stack_pop-Holds :
    (c : Chain) (x : ℕ) (xs : List ℕ)
    → Holds c (x ∷ xs)
    → ((stack_pop c).0 ≡ x) × Holds (stack_pop c).1 xs
unfolding stack_pop Runs AreApart
stack_pop-Holds c x xs v =
    let held : (c.head == 0) ≡ false = ground (arith, v.runs.0, v.runs.1) in
    rw held (v.runs.0, record { runs = rw v.runs.0 v.runs.2; apart = v.apart.1 })

-- `_stack_push` of one element after the other, and so many times `_stack_pop`.
unfoldable pub push_each : List ℕ → Chain → Chain
push_each [] c = c
push_each (p ∷ ps) c = push_each ps (stack_push c p)

unfoldable pub pop_each : ℕ → Chain → List ℕ
pop_each zero c = []
pop_each (suc n) c = let (p, c') = stack_pop c in p ∷ pop_each n c'

push_each-Holds :
    (ps : List ℕ) (c : Chain) (xs : List ℕ)
    → Holds c xs
    → All (IsLoose c.links) ps
    → All (λ q. All (λ x. x ≢ q) xs) ps
    → AreApart ps
    → Holds (push_each ps c) (reverse_aux ps xs)
unfolding push_each AreApart
push_each-Holds [] c xs v loose out d = v
push_each-Holds (p ∷ ps) c xs v ((nz, free), loose) (o, out) (dp, d) =
    let fresh : IsFresh c xs p = record { address = nz; outside = o; unlinked = free } in
    push_each-Holds ps (stack_push c p) (p ∷ xs) (stack_push-Holds c p xs v fresh)
      (All-combine (IsLoose c.links) (λ q. q ≢ p) (IsLoose (stack_push c p).links) ps
        (λ q l a. (l.0, stack_push-frame c p q a ∙ l.1)) loose dp)
      (All-combine (λ q. q ≢ p) (λ q. All (λ x. x ≢ q) xs) (λ q. All (λ x. x ≢ q) (p ∷ xs)) ps
        (λ q a b. ((λ e. a (sym e)), b)) dp out)
      d

pop_each-Holds : (xs : List ℕ) (c : Chain) → Holds c xs → pop_each (length xs) c ≡ xs
unfolding pop_each
pop_each-Holds [] c v = refl
pop_each-Holds (x ∷ xs) c v =
    let (first, rest) = stack_pop-Holds c x xs v in
    ap₂ (λ y (l : List ℕ). y ∷ l) first (pop_each-Holds xs (stack_pop c).1 rest)

All-outside_none : (ps : List ℕ) → All (λ q. All (λ x. x ≢ q) []) ps
All-outside_none [] = tt
All-outside_none (p ∷ ps) = (tt, All-outside_none ps)

-- Elements that are all different, not NULL and linked to nothing, pushed one after the other onto
-- an empty stack, make a stack of their number, from which `_stack_pop` takes the last one first.
pub stack_lifo :
    (h : Store) (ps : List ℕ) (fuel : ℕ)
    → All (IsLoose h) ps
    → AreApart ps
    → length (reverse ps) < fuel
    → let c = push_each ps (record { head = 0; links = h }) in
      (chain_length fuel c ≡ some (length (reverse ps)))
      × (pop_each (length (reverse ps)) c ≡ reverse ps)
unfolding chain_length Runs AreApart
stack_lifo h ps fuel loose d small =
    let empty : Chain = record { head = 0; links = h } in
    let held =
      push_each-Holds ps empty [] (record { runs = refl; apart = tt }) loose (All-outside_none ps)
        d in
    (
      count-Runs fuel (push_each ps empty).links (push_each ps empty).head (reverse ps) held.runs
          small,
      pop_each-Holds (reverse ps) (push_each ps empty) held,
    )

put-known : (h : Store) (p v : ℕ) → h p ≡ v → put h p v ≡ h
put-known h p v e i q = (cell q) i
  where
    cell : (q : ℕ) → put h p v q ≡ h q
    cell q = ground arith

-- On an element that is linked to nothing `_list_link` does what `_queue_push` does.
pub list_link-queue_push :
    (fuel : ℕ) (c : Chain) (ptr : ℕ)
    → c.links ptr ≡ 0
    → list_link fuel c ptr ≡ queue_push fuel c ptr
unfolding list_link queue_push
list_link-queue_push fuel c ptr e = rw (put-known c.links ptr 0 e) refl
