-- ===== src/Chains/Forests.antt =====
-- Searching and visiting the trees of ds.c, by the shape of a tree.
use workqueue.Prelude.{
  ap, Bool-cases, ◌∙◌, arith, All-append, ◌==◌, sym, ◌<◌, if◌then◌else◌, ◌≢◌, All, ◌≡◌, ◌+◌, ◌++◌,
  Bool, ℕ, List, zero, suc, refl, some, false, inl, inr, [], ◌∷◌,
}
use workqueue.Chains.Lists.{first_of}
use workqueue.Chains.Trees.{tree_look, tree_find, Trees}

-- An element with what lies below it and behind it.
pub data Forest : Type 0 where
  bare : Forest
  branch : ℕ → Forest → Forest → Forest

-- From the element p on, with the parent u, the links run through this forest.
unfoldable pub Grows : Trees → ℕ → ℕ → Forest → Type 0
Grows t u p bare = p ≡ 0
Grows t u p (branch x cs ss) =
    (p ≡ x) × (x ≢ 0) × (t.parent x ≡ u) × Grows t x (t.child x) cs × Grows t u (t.sibling x) ss

-- An element, those below it, and those behind it.
unfoldable pub preorder : Forest → List ℕ
preorder bare = []
preorder (branch x cs ss) = x ∷ preorder cs ++ preorder ss

-- Those below an element, those behind it, and the element.
unfoldable pub postorder : Forest → List ℕ
postorder bare = []
postorder (branch x cs ss) = postorder cs ++ postorder ss ++ x ∷ []

unfoldable pub size : Forest → ℕ
size bare = 0
size (branch x cs ss) = suc (size cs + size ss)

first_of-append :
    (func : ℕ → Bool) (xs ys : List ℕ)
    → All (λ x. x ≢ 0) xs
    → first_of func (xs ++ ys)
      ≡ (if first_of func xs == 0 then first_of func ys else first_of func xs)
unfolding first_of
first_of-append func [] ys a = refl
first_of-append func (x ∷ xs) ys (nz, a) = ground (arith, first_of-append func xs ys a)

preorder-not_null :
    (t : Trees) (u p : ℕ) (f : Forest) → Grows t u p f → All (λ x. x ≢ 0) (preorder f)
unfolding Grows preorder
preorder-not_null t u p bare g = tt
preorder-not_null t u p (branch x cs ss) (at, nz, up, below, behind) = (
  nz,
  All-append (λ x. x ≢ 0) (preorder cs) (preorder ss) (preorder-not_null t x (t.child x) cs below)
      (preorder-not_null t u (t.sibling x) ss behind),
)

find_or_null :
    (fuel : ℕ) (t : Trees) (func : ℕ → Bool) (p k : ℕ)
    → tree_find fuel t func p ≡ some k
    → (p ≡ 0 → k ≡ 0)
    → (if p == 0 then some 0 else tree_find fuel t func p) ≡ some k
find_or_null fuel t func p k e z = elim (Bool-cases (p == 0)) [
  | inl null ↦ rw null (ap some (sym (z (ground (arith, null)))))
  | inr some_p ↦ rw some_p e
]

pub Grows-null : (t : Trees) (u p : ℕ) (f : Forest) → Grows t u p f → p ≡ 0 → f ≡ bare
unfolding Grows
Grows-null t u p bare g e = refl
Grows-null t u p (branch x cs ss) g e = absurd (g.1 (sym g.0 ∙ e))

-- `_tree_find` from an element returns the first that passes the test of this element, those
-- below it and those behind it, in that order, or NULL, with more fuel than there are
-- elements.
pub tree_find_lem :
    (fuel : ℕ) (t : Trees) (func : ℕ → Bool) (u p : ℕ) (f : Forest)
    → Grows t u p f
    → size f < fuel
    → tree_find fuel t func p ≡ some (first_of func (preorder f))
unfolding tree_find Grows preorder size first_of
tree_find_lem zero t func u p f g small = absurd (omega arith)
tree_find_lem (suc fuel) t func u p bare g small = rw g refl
tree_find_lem (suc fuel) t func u p (branch x cs ss) (at, nz, up, below, behind) small =
    let here : (x == 0) ≡ false = ground (arith, nz) in
    let low =
      find_or_null fuel t func (t.child x) (first_of func (preorder cs))
        (tree_find_lem fuel t func x (t.child x) cs below (omega arith))
        (λ e.
          ap (λ (f : Forest). first_of func (preorder f))
            (Grows-null t x (t.child x) cs below e)) in
    let late =
      find_or_null fuel t func (t.sibling x) (first_of func (preorder ss))
        (tree_find_lem fuel t func u (t.sibling x) ss behind (omega arith))
        (λ e.
          ap (λ (f : Forest). first_of func (preorder f))
            (Grows-null t u (t.sibling x) ss behind e)) in
    rw
      (
        at,
        here,
        low,
        late,
        first_of-append func (preorder cs) (preorder ss)
            (preorder-not_null t x (t.child x) cs below),
      )
      (ground arith)

look_or_null :
    (fuel : ℕ) (t : Trees) (p : ℕ) (xs : List ℕ)
    → tree_look fuel t p ≡ some xs
    → (p ≡ 0 → xs ≡ [])
    → (if p == 0 then some [] else tree_look fuel t p) ≡ some xs
look_or_null fuel t p xs e z = elim (Bool-cases (p == 0)) [
  | inl null ↦ rw null (ap some (sym (z (ground (arith, null)))))
  | inr some_p ↦ rw some_p e
]

-- `_tree_look` from an element calls the callback on every element below it, every one behind
-- it and the element, once each and in that order, with more fuel than there are elements.
pub tree_look_lem :
    (fuel : ℕ) (t : Trees) (u p : ℕ) (f : Forest)
    → Grows t u p f
    → size f < fuel
    → tree_look fuel t p ≡ some (postorder f)
unfolding tree_look Grows postorder size
tree_look_lem zero t u p f g small = absurd (omega arith)
tree_look_lem (suc fuel) t u p bare g small = rw g refl
tree_look_lem (suc fuel) t u p (branch x cs ss) (at, nz, up, below, behind) small =
    let here : (x == 0) ≡ false = ground (arith, nz) in
    let low =
      look_or_null fuel t (t.child x) (postorder cs)
        (tree_look_lem fuel t x (t.child x) cs below (omega arith))
        (λ e. ap (λ (f : Forest). postorder f) (Grows-null t x (t.child x) cs below e)) in
    let late =
      look_or_null fuel t (t.sibling x) (postorder ss)
        (tree_look_lem fuel t u (t.sibling x) ss behind (omega arith))
        (λ e. ap (λ (f : Forest). postorder f) (Grows-null t u (t.sibling x) ss behind e)) in
    rw (at, here, low, late) refl
