-- ===== src/Chains/Clearing.antt =====
-- `_tree_clear`: every element is cleared once, behind those below it and those behind it.
use workqueue.Chains.Store.{put_other, put}
use workqueue.Prelude.{
  All-combine, ◌<◌, All-map, zero, suc, false, arith, Bool-cases, with_some, All-after, sym, ◌==◌,
  subst, ◌∙◌, All-before, if◌then◌else◌, ◌≢◌, ◌≡◌, ◌++◌, All, ℕ, List, refl, some, inl, inr, [],
  ◌∷◌,
}
use workqueue.Chains.Forests.{Grows-null, Forest, bare, branch, preorder, postorder, size, Grows}
use workqueue.Chains.Shape.{outside_append, AreApart}
use workqueue.Chains.Trees.{spoiled, without_sibling, childless, nothing, tree_clear, Trees}

-- The fields of all elements outside of a list are as before.
abbrev pub Outside : List ℕ → Trees → Trees → Type 0
Outside xs t t' =
    (q : ℕ)
    → All (λ y. y ≢ q) xs
    → (t'.parent q ≡ t.parent q) × (t'.child q ≡ t.child q) × (t'.sibling q ≡ t.sibling q)

pub Grows-same :
    (t t' : Trees) (u p : ℕ) (f : Forest)
    → All
        (λ q. (t'.parent q ≡ t.parent q) × (t'.child q ≡ t.child q) × (t'.sibling q ≡ t.sibling q))
        (preorder f)
    → Grows t u p f
    → Grows t' u p f
unfolding Grows preorder
Grows-same t t' u p bare a g = g
Grows-same t t' u p (branch x cs ss) ((pa, ch, si), a) (at, nz, up, below, behind) =
    let same = λ (q : ℕ).
      (t'.parent q ≡ t.parent q) × (t'.child q ≡ t.child q) × (t'.sibling q ≡ t.sibling q) in
    (
      at,
      nz,
      pa ∙ up,
      subst (λ q. Grows t' x q cs) (sym ch)
          (Grows-same t t' x (t.child x) cs (All-before same (preorder cs) (preorder ss) a) below),
      subst (λ q. Grows t' u q ss) (sym si)
          (Grows-same t t' u (t.sibling x) ss (All-after same (preorder cs) (preorder ss) a)
            behind),
    )

pub AreApart-split : (xs ys : List ℕ) → AreApart (xs ++ ys) → AreApart xs × AreApart ys
unfolding AreApart
AreApart-split [] ys d = (tt, d)
AreApart-split (x ∷ xs) ys (dx, d) =
    let (left, right) = AreApart-split xs ys d in ((All-before (λ y. y ≢ x) xs ys dx, left), right)

put_apart : (h : ℕ → ℕ) (x v q : ℕ) → x ≢ q → put h x v q ≡ h q
put_apart h x v q n = put_other h x v q (λ e. n (sym e))

-- The result of clearing what a field of x leads to.
pub record Emptied (fuel : ℕ) (spoil : ℕ → ℕ × ℕ × ℕ) (t : Trees) (p : ℕ) (f : Forest)
    : Type 0 where
  pub after : Trees
  pub run : tree_clear fuel spoil t p ≡ some (postorder f, after)
  pub outside : Outside (preorder f) t after

clear_child :
    (fuel : ℕ) (spoil : ℕ → ℕ × ℕ × ℕ) (t : Trees) (x : ℕ) (f : Forest)
    → Emptied fuel spoil t (t.child x) f
    → (t.child x ≡ 0 → f ≡ bare)
    → (r : Trees) × ((if t.child x == 0
          then nothing t
          else with_some (tree_clear fuel spoil t (t.child x)) (childless x))
        ≡ some (postorder f, r))
      × Outside (x ∷ preorder f) t r
      × (All (λ y. y ≢ x) (preorder f) → r.sibling x ≡ t.sibling x)
unfolding postorder
clear_child fuel spoil t x f c z = elim (Bool-cases (t.child x == 0)) [
  | inl null ↦
      let none_below = z (ground (arith, null)) in
      (
        t,
        (λ i.
              if null i
              then nothing t
              else with_some (tree_clear fuel spoil t (t.child x)) (childless x))
            ∙ (λ i. some (postorder (sym none_below i), t)),
        λ q o. (refl, refl, refl),
        λ o. refl,
      )
  | inr some_child ↦ (
    record c.after { child = put c.after.child x 0 },
    (λ i.
          if some_child i
          then nothing t
          else with_some (tree_clear fuel spoil t (t.child x)) (childless x))
        ∙ (λ i. with_some (c.run i) (childless x)),
    λ q o. (
      (c.outside q o.1).0,
      put_apart c.after.child x 0 q o.0 ∙ (c.outside q o.1).1,
      (c.outside q o.1).2,
    ),
    λ o. (c.outside x o).2,
  )
]

clear_sibling :
    (fuel : ℕ) (spoil : ℕ → ℕ × ℕ × ℕ) (t : Trees) (x : ℕ) (f : Forest)
    → Emptied fuel spoil t (t.sibling x) f
    → (t.sibling x ≡ 0 → f ≡ bare)
    → (r : Trees) × ((if t.sibling x == 0
          then nothing t
          else with_some (tree_clear fuel spoil t (t.sibling x)) (without_sibling x))
        ≡ some (postorder f, r))
      × Outside (x ∷ preorder f) t r
unfolding postorder
clear_sibling fuel spoil t x f c z = elim (Bool-cases (t.sibling x == 0)) [
  | inl null ↦
      let none_behind = z (ground (arith, null)) in
      (
        t,
        (λ i.
              if null i
              then nothing t
              else with_some (tree_clear fuel spoil t (t.sibling x)) (without_sibling x))
            ∙ (λ i. some (postorder (sym none_behind i), t)),
        λ q o. (refl, refl, refl),
      )
  | inr some_sibling ↦ (
    record c.after { sibling = put c.after.sibling x 0 },
    (λ i.
          if some_sibling i
          then nothing t
          else with_some (tree_clear fuel spoil t (t.sibling x)) (without_sibling x))
        ∙ (λ i. with_some (c.run i) (without_sibling x)),
    λ q o. (
      (c.outside q o.1).0,
      (c.outside q o.1).1,
      put_apart c.after.sibling x 0 q o.0 ∙ (c.outside q o.1).2,
    ),
  )
]

-- A forest behind changes in what is apart from it.
Grows-elsewhere :
    (t t' : Trees) (u p : ℕ) (xs : List ℕ) (f : Forest)
    → Outside xs t t'
    → All (λ q. All (λ y. y ≢ q) xs) (preorder f)
    → Grows t u p f
    → Grows t' u p f
Grows-elsewhere t t' u p xs f same apart = Grows-same t t' u p f (
    All-map (λ q. All (λ y. y ≢ q) xs)
      (λ q. (t'.parent q ≡ t.parent q) × (t'.child q ≡ t.child q) × (t'.sibling q ≡ t.sibling q))
      (preorder f) same apart)

cleared_branch :
    (fuel : ℕ) (spoil : ℕ → ℕ × ℕ × ℕ) (t r w : Trees) (p x : ℕ) (cs ss : Forest)
    → p ≡ x
    → x ≢ 0
    → (if t.child x == 0
        then nothing t
        else with_some (tree_clear fuel spoil t (t.child x)) (childless x))
      ≡ some (postorder cs, r)
    → (if r.sibling x == 0
        then nothing r
        else with_some (tree_clear fuel spoil r (r.sibling x)) (without_sibling x))
      ≡ some (postorder ss, w)
    → tree_clear (suc fuel) spoil t p ≡ some (postorder (branch x cs ss), spoiled spoil w x)
unfolding tree_clear postorder
cleared_branch fuel spoil t r w p x cs ss at nz low late =
    let here : (x == 0) ≡ false = ground (arith, nz) in rw (at, here, low, late) refl

frames_all :
    (spoil : ℕ → ℕ × ℕ × ℕ) (t r w : Trees) (x : ℕ) (xs ys : List ℕ)
    → Outside (x ∷ xs) t r
    → Outside (x ∷ ys) r w
    → Outside (x ∷ xs ++ ys) t (spoiled spoil w x)
frames_all spoil t r w x xs ys o1 o2 q (n, o) =
    let a = o1 q (n, All-before (λ y. y ≢ q) xs ys o) in
    let b = o2 q (n, All-after (λ y. y ≢ q) xs ys o) in
    (
      put_apart w.parent x (spoil x).0 q n ∙ b.0 ∙ a.0,
      put_apart w.child x (spoil x).1 q n ∙ b.1 ∙ a.1,
      put_apart w.sibling x (spoil x).2 q n ∙ b.2 ∙ a.2,
    )

clears :
    (fuel : ℕ) (spoil : ℕ → ℕ × ℕ × ℕ) (t : Trees) (u p : ℕ) (f : Forest)
    → Grows t u p f
    → AreApart (preorder f)
    → size f < fuel
    → Emptied fuel spoil t p f
unfolding tree_clear Grows preorder postorder size AreApart
clears zero spoil t u p f g d small = absurd (omega arith)
clears (suc fuel) spoil t u p bare g d small = record {
  after = t;
  run = rw g refl;
  outside = λ q o. (refl, refl, refl);
}
clears (suc fuel) spoil t u p (branch x cs ss) (at, nz, up, below, behind) (dx, d) small =
    let (ds, es) = AreApart-split (preorder cs) (preorder ss) d in
    let x_low = All-before (λ y. y ≢ x) (preorder cs) (preorder ss) dx in
    let x_late = All-after (λ y. y ≢ x) (preorder cs) (preorder ss) dx in
    let c = clears fuel spoil t x (t.child x) cs below ds (omega arith) in
    let (r, low, out, kept) =
      clear_child fuel spoil t x cs c (Grows-null t x (t.child x) cs below) in
    let apart =
      All-combine (λ q. q ≢ x) (λ q. All (λ y. y ≢ q) (preorder cs))
        (λ q. All (λ y. y ≢ q) (x ∷ preorder cs)) (preorder ss) (λ q n o. ((λ e. n (sym e)), o))
        x_late (outside_append (preorder cs) (preorder ss) d) in
    let moved = Grows-elsewhere t r u (t.sibling x) (x ∷ preorder cs) ss out apart behind in
    let here = subst (λ q. Grows r u q ss) (sym (kept x_low)) moved in
    let e = clears fuel spoil r u (r.sibling x) ss here es (omega arith) in
    let (w, late, out2) =
      clear_sibling fuel spoil r x ss e (Grows-null r u (r.sibling x) ss here) in
    record {
      after = spoiled spoil w x;
      run = cleared_branch fuel spoil t r w p x cs ss at nz low late;
      outside = λ q o. frames_all spoil t r w x (preorder cs) (preorder ss) out out2 q o;
    }

-- `_tree_clear` from an element of a tree of different elements, with more fuel than there are
-- elements, calls the callback on every element below it, every one behind it and the element,
-- once each and in that order, whatever it leaves in their fields; the fields of all others
-- are as before.
pub tree_clear_lem :
    (fuel : ℕ) (spoil : ℕ → ℕ × ℕ × ℕ) (t : Trees) (u p : ℕ) (f : Forest)
    → Grows t u p f
    → AreApart (preorder f)
    → size f < fuel
    → (t' : Trees) × (tree_clear fuel spoil t p ≡ some (postorder f, t'))
      × Outside (preorder f) t t'
tree_clear_lem fuel spoil t u p f g d small =
    let c = clears fuel spoil t u p f g d small in (c.after, c.run, c.outside)
