-- ===== src/Chains/FamilyCut.antt =====
-- `_tree_unlink` in ds.c, by the children of the parent of what is unlinked.
use workqueue.Chains.Clearing.{Outside}
use workqueue.Chains.Forests.{tree_find_lem, preorder, size, Grows, Forest}
use workqueue.Chains.Families.{Family}
use workqueue.Chains.Lists.{first_of}
use workqueue.Chains.Store.{put_same, put_other, put}
use workqueue.Chains.Shape.{Runs-put, AreApart, Runs}
use workqueue.Chains.Trees.{loosened, tree_unlink, Trees, unlink_child}
use workqueue.Prelude.{
  if◌then◌else◌, All-combine, Bool, All-cut, sym, ◌∙◌, All-before, All-after, ◌==◌, arith, ◌<◌,
  length, ◌≡◌, All, ◌≢◌, ◌++◌, List, ℕ, zero, suc, refl, some, true, false, [], ◌∷◌,
}

pass_by :
    (fuel : ℕ) (t : Trees) (ptr previous p : ℕ) (zs : List ℕ)
    → Runs t.sibling p zs
    → All (λ y. y ≢ ptr) zs
    → length zs < fuel
    → unlink_child fuel t ptr previous p ≡ some t
unfolding unlink_child Runs
pass_by zero t ptr previous p zs r a small = absurd (omega arith)
pass_by (suc fuel) t ptr previous p [] r a small = rw r refl
pass_by (suc fuel) t ptr previous p (z ∷ zs) (at, nz, r) (n, a) small =
    let here : (z == 0) ≡ false = ground (arith, nz) in
    let other : (z == ptr) ≡ false = ground (arith, n) in
    rw (at, here, other) (pass_by fuel t ptr z (t.sibling z) zs r a (omega arith))

-- The loop behind an element that it has passed.
record Taken (fuel : ℕ) (t : Trees) (ptr w p : ℕ) (xs ys : List ℕ) : Type 0 where
  links : ℕ → ℕ
  run : unlink_child fuel t ptr w p ≡ some (record t { sibling = links })
  runs : Runs links (links w) (xs ++ ys)
  frame : (q : ℕ) → All (λ y. y ≢ q) (w ∷ xs) → links q ≡ t.sibling q

take_here :
    (fuel : ℕ) (t : Trees) (ptr w p : ℕ) (ys : List ℕ)
    → w ≢ 0
    → Runs t.sibling p (ptr ∷ ys)
    → AreApart (w ∷ ptr ∷ ys)
    → length ys < fuel
    → Taken (suc fuel) t ptr w p [] ys
unfolding unlink_child Runs AreApart
take_here fuel t ptr w p ys wnz (at, nz, r) ((pw, yw), (yp, d)) small =
    let here : (ptr == 0) ≡ false = ground (arith, nz) in
    let same : (ptr == ptr) ≡ true = ground arith in
    let some_w : (w == 0) ≡ false = ground (arith, wnz) in
    let kept : put t.sibling w (t.sibling ptr) ptr ≡ t.sibling ptr =
      put_other t.sibling w (t.sibling ptr) ptr pw in
    let moved = Runs-put t.sibling (t.sibling ptr) w (t.sibling ptr) ys yw r in
    record {
      links = put t.sibling w (t.sibling ptr);
      run =
          rw (at, here, same, some_w, kept)
            (pass_by fuel (record t { sibling = put t.sibling w (t.sibling ptr) }) ptr ptr
              (t.sibling ptr) ys moved yp small);
      runs = rw (put_same t.sibling w (t.sibling ptr)) moved;
      frame = λ q o. put_other t.sibling w (t.sibling ptr) q (λ e. o.0 (sym e));
    }

take_behind :
    (fuel : ℕ) (t : Trees) (ptr w p : ℕ) (xs ys : List ℕ)
    → w ≢ 0
    → t.sibling w ≡ p
    → Runs t.sibling p (xs ++ ptr ∷ ys)
    → AreApart (w ∷ xs ++ ptr ∷ ys)
    → length (xs ++ ptr ∷ ys) < fuel
    → Taken fuel t ptr w p xs ys
unfolding unlink_child Runs AreApart
take_behind zero t ptr w p xs ys wnz e r d small = absurd (omega arith)
take_behind (suc fuel) t ptr w p [] ys wnz e r d small =
    take_here fuel t ptr w p ys wnz r d (omega arith)
take_behind (suc fuel) t ptr w p (x ∷ xs) ys wnz e (at, nz, r) ((xw, dw), (dx, d)) small =
    let here : (x == 0) ≡ false = ground (arith, nz) in
    let n : ptr ≢ x = (All-after (λ y. y ≢ x) xs (ptr ∷ ys) dx).0 in
    let other : (x == ptr) ≡ false = ground (arith, n) in
    let k = take_behind fuel t ptr x (t.sibling x) xs ys nz refl r (dx, d) (omega arith) in
    record {
      links = k.links;
      run = rw (at, here, other) k.run;
      runs = (k.frame w (xw, All-before (λ y. y ≢ w) xs (ptr ∷ ys) dw) ∙ e ∙ at, nz, k.runs);
      frame = λ q o. k.frame q o.1;
    }

-- The loop over all children.
record Removed (fuel : ℕ) (t : Trees) (q ptr : ℕ) (xs ys : List ℕ) : Type 0 where
  after : Trees
  run : unlink_child fuel t ptr 0 (t.child q) ≡ some after
  root : after.root ≡ t.root
  parent : after.parent ≡ t.parent
  runs : Runs after.sibling (after.child q) (xs ++ ys)
  frame :
      (k : ℕ)
      → All (λ y. y ≢ k) (q ∷ xs ++ ptr ∷ ys)
      → (after.child k ≡ t.child k) × (after.sibling k ≡ t.sibling k)

remove_child :
    (fuel : ℕ) (t : Trees) (q ptr : ℕ) (xs ys : List ℕ)
    → Runs t.sibling (t.child q) (xs ++ ptr ∷ ys)
    → AreApart (xs ++ ptr ∷ ys)
    → t.parent ptr ≡ q
    → length (xs ++ ptr ∷ ys) < fuel
    → Removed fuel t q ptr xs ys
unfolding unlink_child Runs AreApart
remove_child zero t q ptr xs ys r d up small = absurd (omega arith)
remove_child (suc fuel) t q ptr [] ys (at, nz, r) (dp, d) up small =
    let here : (ptr == 0) ≡ false = ground (arith, nz) in
    let same : (ptr == ptr) ≡ true = ground arith in
    let w = record t { child = put t.child q (t.sibling ptr) } in
    record {
      after = w;
      run = rw (at, here, same, up) (pass_by fuel w ptr ptr (t.sibling ptr) ys r dp (omega arith));
      root = refl;
      parent = refl;
      runs = rw (put_same t.child q (t.sibling ptr)) r;
      frame = λ k o. (put_other t.child q (t.sibling ptr) k (λ e. o.0 (sym e)), refl);
    }
remove_child (suc fuel) t q ptr (x ∷ xs) ys (at, nz, r) (dx, d) up small =
    let here : (x == 0) ≡ false = ground (arith, nz) in
    let n : ptr ≢ x = (All-after (λ y. y ≢ x) xs (ptr ∷ ys) dx).0 in
    let other : (x == ptr) ≡ false = ground (arith, n) in
    let k = take_behind fuel t ptr x (t.sibling x) xs ys nz refl r (dx, d) (omega arith) in
    record {
      after = record t { sibling = k.links };
      run = rw (at, here, other) k.run;
      root = refl;
      parent = refl;
      runs = (at, nz, k.runs);
      frame = λ j o. (refl, k.frame j (o.1.0, All-before (λ y. y ≢ j) xs (ptr ∷ ys) o.1.1));
    }

pub AreApart-cut :
    (xs : List ℕ) (p : ℕ) (ys : List ℕ) → AreApart (xs ++ p ∷ ys) → AreApart (xs ++ ys)
unfolding AreApart
AreApart-cut [] p ys d = d.1
AreApart-cut (x ∷ xs) p ys (dx, d) = ((All-cut (λ y. y ≢ x) xs p ys dx).1, AreApart-cut xs p ys d)

apart_middle :
    (xs : List ℕ) (p : ℕ) (ys : List ℕ) → AreApart (xs ++ p ∷ ys) → All (λ y. y ≢ p) (xs ++ ys)
unfolding AreApart
apart_middle [] p ys d = d.0
apart_middle (x ∷ xs) p ys (dx, d) =
    ((λ e. (All-after (λ y. y ≢ x) xs (p ∷ ys) dx).0 (sym e)), apart_middle xs p ys d)

Family-loosened :
    (fuel : ℕ) (t : Trees) (q ptr : ℕ) (xs ys : List ℕ) (r : Removed fuel t q ptr xs ys)
    → Family t q (xs ++ ptr ∷ ys)
    → Family (loosened r.after ptr) q (xs ++ ys)
Family-loosened fuel t q ptr xs ys r v =
    let apart = apart_middle xs ptr ys v.apart in
    record {
      runs = Runs-put r.after.sibling (r.after.child q) ptr 0 (xs ++ ys) apart r.runs;
      apart = AreApart-cut xs ptr ys v.apart;
      parents =
          All-combine (λ k. k ≢ ptr) (λ k. t.parent k ≡ q) (λ k. put r.after.parent ptr 0 k ≡ q)
            (xs ++ ys) (λ k n e. put_other r.after.parent ptr 0 k n ∙ (λ i. r.parent i k) ∙ e) apart
            ((All-cut (λ k. t.parent k ≡ q) xs ptr ys v.parents).1);
    }

-- `_tree_unlink`, where the first element that passes the test is not the root but a child of
-- q: the element is returned, its parent and sibling are reset, the other children of q keep
-- their order, and the fields of elements that are neither q nor a child of it are as before.
-- The fuel is more than the elements that are searched and the children.
pub tree_unlink_lem :
    (fuel : ℕ) (t : Trees) (parent : ℕ) (func : ℕ → Bool) (u : ℕ) (f : Forest) (q ptr : ℕ)
    (xs ys : List ℕ)
    → Grows t u (if parent == 0 then t.root else parent) f
    → size f < fuel
    → first_of func (preorder f) ≡ ptr
    → Family t q (xs ++ ptr ∷ ys)
    → ptr ≢ 0
    → ptr ≢ t.root
    → q ≢ 0
    → length (xs ++ ptr ∷ ys) < fuel
    → (t' : Trees) × (tree_unlink fuel t parent func ≡ some (ptr, t'))
      × Family t' q (xs ++ ys)
      × (t'.parent ptr ≡ 0)
      × (t'.sibling ptr ≡ 0)
      × (t'.root ≡ t.root)
      × Outside (q ∷ xs ++ ptr ∷ ys) t t'
unfolding tree_unlink
tree_unlink_lem fuel t parent func u f q ptr xs ys g small first v nz inner some_q few =
    let up : t.parent ptr ≡ q = (All-cut (λ k. t.parent k ≡ q) xs ptr ys v.parents).0 in
    let r = remove_child fuel t q ptr xs ys v.runs v.apart up few in
    let here : (ptr == 0) ≡ false = ground (arith, nz) in
    let no_root : (ptr == t.root) ≡ false = ground (arith, inner) in
    let below : (q == 0) ≡ false = ground (arith, some_q) in
    (
      loosened r.after ptr,
      rw
          (
            tree_find_lem fuel t func u (if parent == 0 then t.root else parent) f g small,
            first,
            here,
            no_root,
            up,
            below,
            r.run,
          )
          refl,
      Family-loosened fuel t q ptr xs ys r v,
      put_same r.after.parent ptr 0,
      put_same r.after.sibling ptr 0,
      r.root,
      λ k o.
          let n : k ≢ ptr = λ e. (All-after (λ y. y ≢ k) xs (ptr ∷ ys) o.1).0 (sym e) in
          let (same_child, same_sibling) = r.frame k o in
          (
            put_other r.after.parent ptr 0 k n ∙ (λ i. r.parent i k),
            same_child,
            put_other r.after.sibling ptr 0 k n ∙ same_sibling,
          ),
    )
