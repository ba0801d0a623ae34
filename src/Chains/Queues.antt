-- ===== src/Chains/Queues.antt =====
-- Queues, stacks and lists of elements that are not linked yet.
-- The chain holds these elements, all different.
use workqueue.Chains.Store.{put_other, Store, put, Chain}
use workqueue.Chains.Shape.{count-Runs, outside_append, Runs-append, Runs, AreApart}
use workqueue.Chains.Calls.{chain_length, queue_pop, queue_push}
use workqueue.Prelude.{
  All-combine, All-combine, subst, length-append, append_assoc, ◌∙◌, ap₂, with_some, append-nil,
  Option, ◌+◌, zero, suc, sym, arith, All-append, ◌<◌, ◌++◌, ◌==◌, ◌≡◌, length, All, ◌≢◌, ℕ, List,
  refl, some, false, [], ◌∷◌,
}

pub record Holds (c : Chain) (xs : List ℕ) : Type 0 where
  pub runs : Runs c.links c.head xs
  pub apart : AreApart xs

-- An element that may be added: not NULL, not in the chain, and linked to nothing.
pub record IsFresh (c : Chain) (xs : List ℕ) (ptr : ℕ) : Type 0 where
  pub address : ptr ≢ 0
  pub outside : All (λ x. x ≢ ptr) xs
  pub unlinked : c.links ptr ≡ 0

pub AreApart-append :
    (xs : List ℕ) (p : ℕ) → AreApart xs → All (λ x. x ≢ p) xs → AreApart (xs ++ p ∷ [])
unfolding AreApart
AreApart-append [] p d a = (tt, tt)
AreApart-append (x ∷ xs) p (dx, d) (a, others) =
    (All-append (λ y. y ≢ x) xs (p ∷ []) dx ((λ e. a (sym e)), tt), AreApart-append xs p d others)

-- The chain after a push: the element is the last, and no element outside is linked anew.
pub record Pushed (c : Chain) (xs : List ℕ) (ptr : ℕ) (c' : Chain) : Type 0 where
  pub holds : Holds c' (xs ++ ptr ∷ [])
  pub frame : (q : ℕ) → All (λ x. x ≢ q) xs → c'.links q ≡ c.links q

pub queue_push-Pushed :
    (fuel : ℕ) (c : Chain) (xs : List ℕ) (ptr : ℕ)
    → Holds c xs
    → IsFresh c xs ptr
    → length xs < fuel
    → (c' : Chain) × (queue_push fuel c ptr ≡ some c') × Pushed c xs ptr c'
unfolding queue_push Runs AreApart
queue_push-Pushed fuel c [] ptr v f small =
    let here : (ptr == 0) ≡ false = ground (arith, f.address) in
    (
      record { head = ptr; links = c.links },
      rw (here, v.runs) refl,
      record {
        holds = record { runs = (refl, f.address, f.unlinked); apart = (tt, tt) };
        frame = λ q a. refl;
      },
    )
queue_push-Pushed fuel c (x ∷ xs) ptr v f small =
    let here : (ptr == 0) ≡ false = ground (arith, f.address) in
    let held : (c.head == 0) ≡ false = ground (arith, v.runs.0, v.runs.1) in
    let (l, found, longer, inside) =
      Runs-append fuel c.links c.head ptr x xs v.runs v.apart f.outside f.address f.unlinked
        (omega arith) in
    (
      record { head = c.head; links = put c.links l ptr },
      rw (here, held, found) refl,
      record {
        holds = record { runs = longer; apart = AreApart-append (x ∷ xs) ptr v.apart f.outside };
        frame = λ q a. put_other c.links l ptr q (inside q a);
      },
    )

-- `_queue_pop` of a chain that holds elements returns the first and leaves the others.
pub queue_pop-Holds :
    (c : Chain) (x : ℕ) (xs : List ℕ)
    → Holds c (x ∷ xs)
    → ((queue_pop c).0 ≡ x) × Holds (queue_pop c).1 xs
unfolding queue_pop Runs AreApart
queue_pop-Holds c x xs v =
    let held : (c.head == 0) ≡ false = ground (arith, v.runs.0, v.runs.1) in
    rw held (v.runs.0, record { runs = rw v.runs.0 v.runs.2; apart = v.apart.1 })

-- `_queue_push` of one element after the other, and so many times `_queue_pop`.
unfoldable pub push_all : ℕ → List ℕ → Chain → Option Chain
push_all fuel [] c = some c
push_all fuel (p ∷ ps) c = with_some (queue_push fuel c p) (λ c'. push_all fuel ps c')

unfoldable pub pop_all : ℕ → Chain → List ℕ
pop_all zero c = []
pop_all (suc n) c = let (p, c') = queue_pop c in p ∷ pop_all n c'

-- Elements that are not NULL and linked to nothing.
abbrev pub IsLoose : Store → ℕ → Type 0
IsLoose h p = (p ≢ 0) × (h p ≡ 0)

push_all-Holds :
    (fuel : ℕ) (ps : List ℕ) (c : Chain) (xs : List ℕ)
    → Holds c xs
    → All (IsLoose c.links) ps
    → AreApart (xs ++ ps)
    → length xs + length ps < fuel
    → (c' : Chain) × (push_all fuel ps c ≡ some c') × Holds c' (xs ++ ps)
unfolding push_all
push_all-Holds fuel [] c xs v loose d small = (c, refl, rw append-nil v)
push_all-Holds fuel (p ∷ ps) c xs v ((nz, free), loose) d small =
    let (out, others) = outside_append xs (p ∷ ps) d in
    let (c1, pushed, after) =
      queue_push-Pushed fuel c xs p v (record { address = nz; outside = out; unlinked = free })
        (omega arith) in
    let still =
      All-combine (IsLoose c.links) (λ q. All (λ x. x ≢ q) xs) (IsLoose c1.links) ps
        (λ q l o. (l.0, after.frame q o ∙ l.1)) loose others in
    let (c2, rest, held) =
      push_all-Holds fuel ps c1 (xs ++ p ∷ []) after.holds still (rw append_assoc d)
        (omega (arith, length-append xs (p ∷ []))) in
    (c2, rw pushed rest, subst (Holds c2) (append_assoc xs (p ∷ []) ps) held)

pop_all-Holds : (xs : List ℕ) (c : Chain) → Holds c xs → pop_all (length xs) c ≡ xs
unfolding pop_all
pop_all-Holds [] c v = refl
pop_all-Holds (x ∷ xs) c v =
    let (first, rest) = queue_pop-Holds c x xs v in
    ap₂ (λ y (l : List ℕ). y ∷ l) first (pop_all-Holds xs (queue_pop c).1 rest)

-- Elements that are all different, not NULL and linked to nothing, pushed one after the other into
-- an empty queue with enough fuel, make a queue of their number, from which `_queue_pop` takes them
-- in the order in which they were pushed.
pub queue_fifo :
    (fuel : ℕ) (h : Store) (ps : List ℕ)
    → All (IsLoose h) ps
    → AreApart ps
    → length ps < fuel
    → (c : Chain) × (push_all fuel ps (record { head = 0; links = h }) ≡ some c)
      × (chain_length fuel c ≡ some (length ps))
      × (pop_all (length ps) c ≡ ps)
unfolding chain_length Runs AreApart
queue_fifo fuel h ps loose d small =
    let (c, pushed, held) =
      push_all-Holds fuel ps (record { head = 0; links = h }) []
        (record { runs = refl; apart = tt }) loose d (omega arith) in
    (c, pushed, count-Runs fuel c.links c.head ps held.runs small, pop_all-Holds ps c held)
