-- ===== src/Chains/Shape.antt =====
-- The elements of a chain.
-- From the address p on the links run through these elements to NULL.
use workqueue.Chains.Calls.{count, last}
use workqueue.Chains.Store.{put_same, put_other, put, Store}
use workqueue.Prelude.{
  All-after, All-combine, subst, ◌∙◌, ◌==◌, refl, false, sym, ◌++◌, arith, ◌≢◌, ◌<◌, All, ◌≡◌,
  length, ℕ, List, zero, suc, some, [], ◌∷◌,
}

unfoldable pub Runs : Store → ℕ → List ℕ → Type 0
Runs h p [] = p ≡ 0
Runs h p (x ∷ xs) = (p ≡ x) × (x ≢ 0) × Runs h (h x) xs

unfoldable pub AreApart : List ℕ → Type 0
AreApart [] = Unit {0}
AreApart (x ∷ xs) = All (λ y. y ≢ x) xs × AreApart xs

pub Runs-put :
    (h : Store) (p q v : ℕ) (xs : List ℕ)
    → All (λ y. y ≢ q) xs
    → Runs h p xs
    → Runs (put h q v) p xs
unfolding Runs
Runs-put h p q v [] a r = r
Runs-put h p q v (x ∷ xs) (a, rest_apart) (e, nz, r) =
    (e, nz, rw (put_other h q v x a) (Runs-put h (h x) q v xs rest_apart r))

-- What the last element of a chain is linked to is the end of the longer chain.
pub Runs-append :
    (fuel : ℕ) (h : Store) (p ptr x : ℕ) (xs : List ℕ)
    → Runs h p (x ∷ xs)
    → AreApart (x ∷ xs)
    → All (λ y. y ≢ ptr) (x ∷ xs)
    → ptr ≢ 0
    → h ptr ≡ 0
    → length xs < fuel
    → (l : ℕ) × (last fuel h p ≡ some l)
      × Runs (put h l ptr) p ((x ∷ xs) ++ ptr ∷ [])
      × ((q : ℕ) → All (λ y. y ≢ q) (x ∷ xs) → q ≢ l)
unfolding Runs AreApart last
Runs-append zero h p ptr x xs r d a nz e small = absurd (omega arith)
Runs-append (suc fuel) h p ptr x [] (at, xnz, r) d (a, rest_apart) nz e small = (
  x,
  rw (at, r) refl,
  (at, xnz, (put_same h x ptr, nz, put_other h x ptr ptr (λ s. a (sym s)) ∙ e)),
  λ q f s. f.0 (sym s),
)
Runs-append (suc fuel) h p ptr x (y ∷ ys) (at, xnz, r) (dx, d) (a, rest_apart) nz e small =
    let (l, found, longer, inside) =
      Runs-append fuel h (h x) ptr y ys r d rest_apart nz e (omega arith) in
    let linked : (h x == 0) ≡ false = ground (arith, r.0, r.1) in
    let first = put_other h l ptr x (inside x dx) in
    (
      l,
      rw (at, linked) found,
      (at, xnz, subst (λ q. Runs (put h l ptr) q ((y ∷ ys) ++ ptr ∷ [])) (sym first) longer),
      λ q f. inside q f.1,
    )

pub count-Runs :
    (fuel : ℕ) (h : Store) (p : ℕ) (xs : List ℕ)
    → Runs h p xs
    → length xs < fuel
    → count fuel h p ≡ some (length xs)
unfolding Runs count
count-Runs zero h p xs r small = absurd (omega arith)
count-Runs (suc fuel) h p [] r small = rw r refl
count-Runs (suc fuel) h p (x ∷ xs) (at, xnz, r) small =
    let here : (x == 0) ≡ false = ground arith in
    rw (at, here, count-Runs fuel h (h x) xs r (omega arith)) refl

-- Where all differ, those behind lie outside those in front.
pub outside_append : (xs ys : List ℕ) → AreApart (xs ++ ys) → All (λ q. All (λ x. x ≢ q) xs) ys
unfolding AreApart
outside_append [] [] d = tt
outside_append [] (y ∷ ys) d = (tt, outside_append [] ys d.1)
outside_append (x ∷ xs) ys (dx, d) =
    All-combine (λ q. q ≢ x) (λ q. All (λ y. y ≢ q) xs) (λ q. All (λ y. y ≢ q) (x ∷ xs)) ys
      (λ q a b. ((λ e. a (sym e)), b)) (All-after (λ q. q ≢ x) xs ys dx) (outside_append xs ys d)
