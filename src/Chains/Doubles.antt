-- ===== src/Chains/Doubles.antt =====
-- The double lists of ds.c: elements that are linked to the next and to the one before.
use workqueue.Chains.Store.{put_same, put_other, put}
use workqueue.Prelude.{
  subst, sym, arith, ◌++◌, ◌∙◌, ◌<◌, length, ◌≢◌, ◌≡◌, All, ◌==◌, if◌then◌else◌, List, Bool, Option,
  ℕ, zero, suc, refl, none, some, false, [], ◌∷◌,
}
use workqueue.Chains.Shape.{AreApart}
use workqueue.Platform.Run.{waiting, fault, done, Cmd}

-- The head with the two links of each element.
pub record Doubles : Type 0 where
  pub top : ℕ
  pub after : ℕ → ℕ
  pub before : ℕ → ℕ

-- `while(current->next)` of `_doublelist_link`
unfoldable pub last_double : ℕ → (ℕ → ℕ) → ℕ → Option ℕ
last_double zero after p = none
last_double (suc fuel) after p =
    let rest = last_double fuel after (after p) in if after p == 0 then some p else rest

unfoldable pub doublelist_link : ℕ → ℕ → Cmd Doubles (Unit {0})
unfolding last_double
doublelist_link fuel ptr s =
    if ptr == 0
    then done tt s
    else if s.top == 0
    then done tt (record { top = ptr; after = s.after; before = s.before })
    else elim (last_double fuel s.after s.top) [
      | none ↦ waiting s
      | some current ↦ done tt (record {
        top = s.top;
        after = put s.after current ptr;
        before = put s.before ptr current;
      })
    ]

-- The element that is found is taken out; at the head the next one is accessed without a test.
unfoldable pub take_double : ℕ → Cmd Doubles ℕ
take_double current s =
    if s.before current == 0
    then (if s.after current == 0
        then fault
        else done current (record {
          top = s.after current;
          after = put s.after current 0;
          before = put (put s.before (s.after current) 0) current 0;
        }))
    else done current (record {
      top = s.top;
      after = put (put s.after (s.before current) (s.after current)) current 0;
      before =
          put
            (if s.after current == 0
              then s.before
              else put s.before (s.after current) (s.before current))
            current 0;
    })

unfoldable pub unlink_double : ℕ → (ℕ → Bool) → ℕ → Cmd Doubles ℕ
unfolding take_double
unlink_double zero func current s = waiting s
unlink_double (suc fuel) func current s =
    let rest = unlink_double fuel func (s.after current) s in
    if current == 0 then done 0 s else if func current then take_double current s else rest

unfoldable pub doublelist_unlink : ℕ → (ℕ → Bool) → Cmd Doubles ℕ
unfolding unlink_double
doublelist_unlink fuel func s = unlink_double fuel func s.top s

-- From p on the links run through these elements, the first of which has b before it.
unfoldable pub RunsBoth : (ℕ → ℕ) → (ℕ → ℕ) → ℕ → ℕ → List ℕ → Type 0
RunsBoth after before b p [] = p ≡ 0
RunsBoth after before b p (x ∷ xs) =
    (p ≡ x) × (x ≢ 0) × (before x ≡ b) × RunsBoth after before x (after x) xs

pub RunsBoth-put_after :
    (after before : ℕ → ℕ) (b p q v : ℕ) (xs : List ℕ)
    → All (λ y. y ≢ q) xs
    → RunsBoth after before b p xs
    → RunsBoth (put after q v) before b p xs
unfolding RunsBoth
RunsBoth-put_after after before b p q v [] a r = r
RunsBoth-put_after after before b p q v (x ∷ xs) (ax, a) (e, nz, eb, r) = (
  e,
  nz,
  eb,
  rw (put_other after q v x ax) (RunsBoth-put_after after before x (after x) q v xs a r),
)

pub RunsBoth-put_before :
    (after before : ℕ → ℕ) (b p q v : ℕ) (xs : List ℕ)
    → All (λ y. y ≢ q) xs
    → RunsBoth after before b p xs
    → RunsBoth after (put before q v) b p xs
unfolding RunsBoth
RunsBoth-put_before after before b p q v [] a r = r
RunsBoth-put_before after before b p q v (x ∷ xs) (ax, a) (e, nz, eb, r) =
    (e, nz, put_other before q v x ax ∙ eb, RunsBoth-put_before after before x (after x) q v xs a r)

pub link_behind :
    (fuel : ℕ) (after before : ℕ → ℕ) (b p ptr x : ℕ) (xs : List ℕ)
    → RunsBoth after before b p (x ∷ xs)
    → AreApart (x ∷ xs)
    → All (λ y. y ≢ ptr) (x ∷ xs)
    → ptr ≢ 0
    → after ptr ≡ 0
    → length xs < fuel
    → (l : ℕ) × (last_double fuel after p ≡ some l)
      × RunsBoth (put after l ptr) (put before ptr l) b p ((x ∷ xs) ++ ptr ∷ [])
      × ((q : ℕ) → All (λ y. y ≢ q) (x ∷ xs) → q ≢ l)
unfolding RunsBoth AreApart last_double
link_behind zero after before b p ptr x xs r d a nz e small = absurd (omega arith)
link_behind (suc fuel) after before b p ptr x [] (at, xnz, eb, r) d (a, none_more) nz e small = (
  x,
  rw (at, r) refl,
  (
    at,
    xnz,
    put_other before ptr x x a ∙ eb,
    (
      put_same after x ptr,
      nz,
      put_same before ptr x,
      put_other after x ptr ptr (λ s. a (sym s)) ∙ e,
    ),
  ),
  λ q f s. f.0 (sym s),
)
link_behind (suc fuel) after before b p ptr x (y ∷ ys) (at, xnz, eb, r) (dx, d) (a, others) nz e
      small =
    let (l, found, longer, inside) =
      link_behind fuel after before x (after x) ptr y ys r d others nz e (omega arith) in
    let linked : (after x == 0) ≡ false = ground (arith, r.0, r.1) in
    let kept = put_other after l ptr x (inside x dx) in
    (
      l,
      rw (at, linked) found,
      (
        at,
        xnz,
        put_other before ptr l x a ∙ eb,
        subst (λ q. RunsBoth (put after l ptr) (put before ptr l) x q ((y ∷ ys) ++ ptr ∷ []))
            (sym kept) longer,
      ),
      λ q f. inside q f.1,
    )
