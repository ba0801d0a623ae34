-- ===== src/Chains/DoubleUnlink.antt =====
-- `_doublelist_link` and `_doublelist_unlink` on a list that is well linked.
use workqueue.Chains.Queues.{AreApart-append}
use workqueue.Chains.Store.{put_same, put_other, put}
use workqueue.Prelude.{
  ◌++◌, ◌≤◌, All, Bool-cases, zero, inl, inr, sym, subst, ◌∙◌, ◌⊎◌, arith, ◌≢◌, ◌<◌, ◌==◌, length,
  ◌≡◌, Bool, ℕ, List, suc, refl, true, false, [], ◌∷◌,
}
use workqueue.Chains.Doubles.{
  link_behind, doublelist_unlink, doublelist_link, RunsBoth-put_before, RunsBoth-put_after,
  take_double, RunsBoth, unlink_double, Doubles,
}
use workqueue.Chains.DoubleLists.{unlink_behind}
use workqueue.Chains.Lists.{AreApart-without, All-without, first_of, without}
use workqueue.Chains.Shape.{AreApart}
use workqueue.Platform.Run.{fault, done, Run}

-- The list holds these elements, which are all different.
pub record HoldsBoth (s : Doubles) (xs : List ℕ) : Type 0 where
  pub runs : RunsBoth s.after s.before 0 s.top xs
  pub apart : AreApart xs

-- What comes of `_doublelist_unlink`.
pub data DoubleUnlinked (func : ℕ → Bool) (xs : List ℕ) : Run Doubles ℕ → Type 0 where
  sole : (x : ℕ) → xs ≡ x ∷ [] → func x ≡ true → DoubleUnlinked func xs fault
  kept :
      {t : Doubles}
      → (length xs ≢ 1) ⊎ (first_of func xs ≡ 0)
      → HoldsBoth t (without func xs)
      → DoubleUnlinked func xs (done (first_of func xs) t)

unlink_sole :
    (fuel h : ℕ) (after before : ℕ → ℕ) (func : ℕ → Bool) (x : ℕ)
    → RunsBoth after before 0 h (x ∷ [])
    → func x ≡ true
    → unlink_double (suc fuel) func h (record { top = h; after = after; before = before }) ≡ fault
unfolding unlink_double take_double RunsBoth
unlink_sole fuel h after before func x (at, nz, eb, r) found =
    let here : (x == 0) ≡ false = ground (arith, nz) in rw (at, here, found, eb, r) refl

unlink_first :
    (fuel h : ℕ) (after before : ℕ → ℕ) (func : ℕ → Bool) (x y : ℕ) (ys : List ℕ)
    → RunsBoth after before 0 h (x ∷ y ∷ ys)
    → AreApart (x ∷ y ∷ ys)
    → func x ≡ true
    → (t : Doubles) × (unlink_double
          (suc fuel)
          func
          h
          (record { top = h; after = after; before = before })
        ≡ done x t)
      × HoldsBoth t (y ∷ ys)
unfolding unlink_double take_double RunsBoth AreApart
unlink_first fuel h after before func x y ys (at, nz, eb, (ea, ynz, ey, r)) ((yx, ox), (dy, d))
      found =
    let here : (x == 0) ≡ false = ground (arith, nz) in
    let more : (after x == 0) ≡ false = ground (arith, ea, ynz) in
    let after' = put after x 0 in
    let before' = put (put before (after x) 0) x 0 in
    let cleared : before' y ≡ 0 =
      put_other (put before (after x) 0) x 0 y yx
      ∙ (λ i. put before (ea i) 0 y)
      ∙ put_same before y 0 in
    (
      record { top = after x; after = after'; before = before' },
      rw (at, here, found, eb, more) refl,
      record {
        runs = (
          ea,
          ynz,
          cleared,
          rw (put_other after x 0 y yx) (
              RunsBoth-put_after after before' y (after y) x 0 ys ox (
                RunsBoth-put_before after (put before (after x) 0) y (after y) x 0 ys ox (
                  subst (λ q. RunsBoth after (put before q 0) y (after y) ys) (sym ea)
                    (RunsBoth-put_before after before y (after y) y 0 ys dy r)))),
        );
        apart = (dy, d);
      },
    )

pass_double :
    (fuel : ℕ) (func : ℕ → Bool) (p x : ℕ) (s : Doubles) {r : Run Doubles ℕ}
    → p ≡ x
    → (x == 0) ≡ false
    → func x ≡ false
    → unlink_double fuel func (s.after x) s ≡ r
    → unlink_double (suc fuel) func p s ≡ r
unfolding unlink_double
pass_double fuel func p x s at here passed rest = rw (at, here, passed) rest

unlink_later :
    (fuel h : ℕ) (after before : ℕ → ℕ) (func : ℕ → Bool) (x : ℕ) (ys : List ℕ)
    → RunsBoth after before 0 h (x ∷ ys)
    → AreApart (x ∷ ys)
    → func x ≡ false
    → length ys < fuel
    → (t : Doubles) × (unlink_double
          (suc fuel)
          func
          h
          (record { top = h; after = after; before = before })
        ≡ done (first_of func ys) t)
      × HoldsBoth t (x ∷ without func ys)
unfolding unlink_double RunsBoth AreApart
unlink_later fuel h after before func x ys (at, nz, eb, r) (dx, d) passed small =
    let here : (x == 0) ≡ false = ground (arith, nz) in
    let (t, gone, top, u) =
      unlink_behind fuel h after before func x (after x) ys r d dx nz refl small in
    (
      t,
      pass_double fuel func h x (record { top = h; after = after; before = before }) at here passed
          gone,
      record {
        runs = (top ∙ at, nz, u.frame_before x dx ∙ eb, u.runs);
        apart = (All-without (λ y. y ≢ x) func ys dx, AreApart-without func ys d);
      },
    )

kept_with :
    (func : ℕ → Bool) (xs : List ℕ) (k : ℕ) (ws : List ℕ) (t : Doubles)
    → first_of func xs ≡ k
    → without func xs ≡ ws
    → (length xs ≢ 1) ⊎ (first_of func xs ≡ 0)
    → HoldsBoth t ws
    → DoubleUnlinked func xs (done k t)
kept_with func xs k ws t f w c held =
    subst (λ q. DoubleUnlinked func xs (done q t)) f (kept c (subst (HoldsBoth t) (sym w) held))

ends :
    (fuel h : ℕ) (after before : ℕ → ℕ) (func : ℕ → Bool)
    → h ≡ 0
    → unlink_double (suc fuel) func h (record { top = h; after = after; before = before })
      ≡ done 0 (record { top = h; after = after; before = before })
unfolding unlink_double
ends fuel h after before func e = rw e refl

unlinked :
    (fuel h : ℕ) (after before : ℕ → ℕ) (func : ℕ → Bool) (xs : List ℕ)
    → RunsBoth after before 0 h xs
    → AreApart xs
    → length xs < fuel
    → DoubleUnlinked func xs
        (unlink_double fuel func h (record { top = h; after = after; before = before }))
unfolding RunsBoth first_of without
unlinked zero h after before func xs r d small = absurd (omega arith)
unlinked (suc fuel) h after before func [] r d small =
    subst (DoubleUnlinked func []) (sym (ends fuel h after before func r))
      (kept (inr refl) (record { runs = r; apart = d }))
unlinked (suc fuel) h after before func (x ∷ []) r d small = elim (Bool-cases (func x)) [
  | inl found ↦
      subst (DoubleUnlinked func (x ∷ [])) (sym (unlink_sole fuel h after before func x r found))
        (sole x refl found)
  | inr passed ↦
      let (t, gone, held) = unlink_later fuel h after before func x [] r d passed (omega arith) in
      rw gone (
        kept_with func (x ∷ []) 0 (x ∷ []) t (rw passed refl) (rw passed refl)
          (inr (rw passed refl)) held)
]
unlinked (suc fuel) h after before func (x ∷ y ∷ ys) r d small = elim (Bool-cases (func x)) [
  | inl found ↦
      let (t, gone, held) = unlink_first fuel h after before func x y ys r d found in
      rw gone (
        kept_with func (x ∷ y ∷ ys) x (y ∷ ys) t (rw found refl) (rw found refl) (inl (omega arith))
          held)
  | inr passed ↦
      let (t, gone, held) =
        unlink_later fuel h after before func x (y ∷ ys) r d passed (omega arith) in
      rw gone (
        kept_with func (x ∷ y ∷ ys) (first_of func (y ∷ ys)) (x ∷ without func (y ∷ ys)) t
          (rw passed refl) (rw passed refl) (inl (omega arith)) held)
]

-- `_doublelist_unlink` on a double list of different elements, with fuel for one more: where the list
-- is one element that passes the test, it reaches through NULL; otherwise it returns the first
-- element that passes, or NULL, and leaves a double list of the others in their order.
pub doublelist_unlink_lem :
    (fuel : ℕ) (s : Doubles) (func : ℕ → Bool) (xs : List ℕ)
    → HoldsBoth s xs
    → length xs < fuel
    → DoubleUnlinked func xs (doublelist_unlink fuel func s)
unfolding doublelist_unlink
doublelist_unlink_lem fuel s func xs v small =
    unlinked fuel s.top s.after s.before func xs v.runs v.apart small

-- `_doublelist_link` of an element that is not NULL, not in the list and linked to nothing makes it the
-- last of a double list.
pub doublelist_link_lem :
    (fuel ptr : ℕ) (s : Doubles) (xs : List ℕ)
    → HoldsBoth s xs
    → All (λ y. y ≢ ptr) xs
    → ptr ≢ 0
    → s.after ptr ≡ 0
    → s.before ptr ≡ 0
    → length xs ≤ fuel
    → (t : Doubles) × (doublelist_link fuel ptr s ≡ done tt t) × HoldsBoth t (xs ++ ptr ∷ [])
unfolding doublelist_link RunsBoth
doublelist_link_lem fuel ptr s [] v a nz ea eb small =
    let some_ptr : (ptr == 0) ≡ false = ground (arith, nz) in
    let empty : (s.top == 0) ≡ true = ground (arith, v.runs) in
    (
      record { top = ptr; after = s.after; before = s.before },
      rw (some_ptr, empty) refl,
      record { runs = (refl, nz, eb, ea); apart = AreApart-append [] ptr v.apart a },
    )
doublelist_link_lem fuel ptr s (x ∷ xs) v a nz ea eb small =
    let some_ptr : (ptr == 0) ≡ false = ground (arith, nz) in
    let some_top : (s.top == 0) ≡ false = ground (arith, v.runs.0, v.runs.1) in
    let (l, found, longer, inside) =
      link_behind fuel s.after s.before 0 s.top ptr x xs v.runs v.apart a nz ea (omega arith) in
    (
      record { top = s.top; after = put s.after l ptr; before = put s.before ptr l },
      rw (some_ptr, some_top, found) refl,
      record { runs = longer; apart = AreApart-append (x ∷ xs) ptr v.apart a },
    )
