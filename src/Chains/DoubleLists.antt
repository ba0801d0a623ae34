-- ===== src/Chains/DoubleLists.antt =====
-- `_doublelist_unlink`: the loop behind the head.
use workqueue.Chains.Store.{put_same, put_other, put}
use workqueue.Prelude.{
  Bool-cases, ◌<◌, length, zero, suc, inl, inr, [], sym, ◌∙◌, arith, ◌==◌, ◌≡◌, All, Bool, ◌≢◌,
  List, ℕ, refl, false, ◌∷◌,
}
use workqueue.Chains.Doubles.{
  unlink_double, RunsBoth-put_before, RunsBoth-put_after, RunsBoth, take_double, Doubles,
}
use workqueue.Chains.Lists.{first_of, without}
use workqueue.Chains.Shape.{AreApart}
use workqueue.Platform.Run.{done}

-- The loop of `_doublelist_unlink` behind an element that it has passed.
pub record UnlinkedBoth (after before : ℕ → ℕ) (func : ℕ → Bool) (w : ℕ) (ys : List ℕ) (t : Doubles)
    : Type 0 where
  pub runs : RunsBoth t.after t.before w (t.after w) (without func ys)
  pub frame_after : (q : ℕ) → All (λ y. y ≢ q) ys → q ≢ w → t.after q ≡ after q
  pub frame_before : (q : ℕ) → All (λ y. y ≢ q) ys → t.before q ≡ before q

taken_last :
    (h : ℕ) (after before : ℕ → ℕ) (w y : ℕ)
    → w ≢ 0
    → y ≢ w
    → before y ≡ w
    → after y ≡ 0
    → (t : Doubles) × (take_double y (record { top = h; after = after; before = before })
        ≡ done y t)
      × (t.top ≡ h)
      × (t.after w ≡ 0)
      × ((q : ℕ) → q ≢ y → q ≢ w → t.after q ≡ after q)
      × ((q : ℕ) → q ≢ y → t.before q ≡ before q)
unfolding take_double
taken_last h after before w y wnz apart eb ea =
    let behind : (w == 0) ≡ false = ground (arith, wnz) in
    (
      record { top = h; after = put (put after w 0) y 0; before = put before y 0 },
      rw (eb, behind, ea) refl,
      refl,
      put_other (put after w 0) y 0 w (λ s. apart (sym s)) ∙ put_same after w 0,
      λ q ny nw. put_other (put after w 0) y 0 q ny ∙ put_other after w 0 q nw,
      λ q ny. put_other before y 0 q ny,
    )

taken_between :
    (h : ℕ) (after before : ℕ → ℕ) (w y z : ℕ) (zs : List ℕ)
    → w ≢ 0
    → y ≢ w
    → before y ≡ w
    → RunsBoth after before y (after y) (z ∷ zs)
    → All (λ q. q ≢ y) (z ∷ zs)
    → All (λ q. q ≢ w) (z ∷ zs)
    → AreApart (z ∷ zs)
    → (t : Doubles) × (take_double y (record { top = h; after = after; before = before })
        ≡ done y t)
      × (t.top ≡ h)
      × RunsBoth t.after t.before w (t.after w) (z ∷ zs)
      × ((q : ℕ) → q ≢ y → q ≢ w → t.after q ≡ after q)
      × ((q : ℕ) → q ≢ y → q ≢ z → t.before q ≡ before q)
unfolding take_double RunsBoth AreApart
taken_between h after before w y z zs wnz apart eb (ea, znz, ez, r) (zy, oy) (zw, ow) (dz, d) =
    let behind : (w == 0) ≡ false = ground (arith, wnz) in
    let more : (z == 0) ≡ false = ground (arith, znz) in
    let after' = put (put after w z) y 0 in
    let before' = put (put before z w) y 0 in
    let next_z : after' z ≡ after z =
      put_other (put after w z) y 0 z zy ∙ put_other after w z z zw in
    let over : after' w ≡ z =
      put_other (put after w z) y 0 w (λ s. apart (sym s)) ∙ put_same after w z in
    (
      record { top = h; after = after'; before = before' },
      rw (eb, behind, ea, more) refl,
      refl,
      (
        over,
        znz,
        put_other (put before z w) y 0 z zy ∙ put_same before z w,
        rw next_z (
            RunsBoth-put_after (put after w z) before' z (after z) y 0 zs oy (
              RunsBoth-put_after after before' z (after z) w z zs ow (
                RunsBoth-put_before after (put before z w) z (after z) y 0 zs oy
                  (RunsBoth-put_before after before z (after z) z w zs dz r)))),
      ),
      λ q ny nw. put_other (put after w z) y 0 q ny ∙ put_other after w z q nw,
      λ q ny nz. put_other (put before z w) y 0 q ny ∙ put_other before z w q nz,
    )

passed_one :
    (after before : ℕ → ℕ) (func : ℕ → Bool) (w y : ℕ) (ys : List ℕ) (t : Doubles)
    → func y ≡ false
    → y ≢ 0
    → y ≢ w
    → All (λ z. z ≢ w) ys
    → All (λ z. z ≢ y) ys
    → after w ≡ y
    → before y ≡ w
    → UnlinkedBoth after before func y ys t
    → UnlinkedBoth after before func w (y ∷ ys) t
unfolding RunsBoth without
passed_one after before func w y ys t passed ynz a others dy at eb u = record {
  runs =
      rw passed
        (u.frame_after w others (λ s. a (sym s)) ∙ at, ynz, u.frame_before y dy ∙ eb, u.runs);
  frame_after = λ q f n. u.frame_after q f.1 (λ s. f.0 (sym s));
  frame_before = λ q f. u.frame_before q f.1;
}

pub unlink_behind :
    (fuel h : ℕ) (after before : ℕ → ℕ) (func : ℕ → Bool) (w p : ℕ) (ys : List ℕ)
    → RunsBoth after before w p ys
    → AreApart ys
    → All (λ y. y ≢ w) ys
    → w ≢ 0
    → after w ≡ p
    → length ys < fuel
    → (t : Doubles) × (unlink_double fuel func p
          (record { top = h; after = after; before = before })
        ≡ done (first_of func ys) t)
      × (t.top ≡ h)
      × UnlinkedBoth after before func w ys t
unfolding RunsBoth AreApart unlink_double first_of without
unlink_behind zero h after before func w p ys r d a nz e small = absurd (omega arith)
unlink_behind (suc fuel) h after before func w p [] r d a nz e small = (
  record { top = h; after = after; before = before },
  rw r refl,
  refl,
  record { runs = e ∙ r; frame_after = λ q f n. refl; frame_before = λ q f. refl },
)
unlink_behind (suc fuel) h after before func w p (y ∷ []) (at, ynz, eb, r) (dy, d) (a, others) nz e
      small =
    let here : (y == 0) ≡ false = ground (arith, ynz) in
    elim (Bool-cases (func y)) [
      | inl found ↦
          let (t, taken, top, over, fa, fb) = taken_last h after before w y nz a eb r in
          (
            t,
            rw (at, here, found) taken,
            top,
            record {
              runs = rw found over;
              frame_after = λ q f n. fa q (λ s. f.0 (sym s)) n;
              frame_before = λ q f. fb q (λ s. f.0 (sym s));
            },
          )
      | inr passed ↦
          let (t, gone, top, u) =
            unlink_behind fuel h after before func y (after y) [] r d tt ynz refl (omega arith) in
          (
            t,
            rw (at, here, passed) gone,
            top,
            passed_one after before func w y [] t passed ynz a others dy (e ∙ at) eb u,
          )
    ]
unlink_behind (suc fuel) h after before func w p (y ∷ z ∷ zs) (at, ynz, eb, r) (dy, d) (a, others)
      nz e small =
    let here : (y == 0) ≡ false = ground (arith, ynz) in
    elim (Bool-cases (func y)) [
      | inl found ↦
          let (t, taken, top, runs, fa, fb) =
            taken_between h after before w y z zs nz a eb r dy others d in
          (
            t,
            rw (at, here, found) taken,
            top,
            record {
              runs = rw found runs;
              frame_after = λ q f n. fa q (λ s. f.0 (sym s)) n;
              frame_before = λ q f. fb q (λ s. f.0 (sym s)) (λ s. f.1.0 (sym s));
            },
          )
      | inr passed ↦
          let (t, gone, top, u) =
            unlink_behind fuel h after before func y (after y) (z ∷ zs) r d dy ynz refl
              (omega arith) in
          (
            t,
            rw (at, here, passed) gone,
            top,
            passed_one after before func w y (z ∷ zs) t passed ynz a others dy (e ∙ at) eb u,
          )
    ]
