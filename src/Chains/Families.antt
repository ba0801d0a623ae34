-- ===== src/Chains/Families.antt =====
-- Linking in the trees of ds.c, by the children of an element.
use workqueue.Chains.Queues.{AreApart-append}
use workqueue.Chains.Store.{put_same, put_other, put}
use workqueue.Chains.Calls.{last}
use workqueue.Prelude.{
  All-append, ◌==◌, ◌∙◌, ◌++◌, ◌≤◌, All-combine, refl, some, true, false, arith, length, ◌≡◌, All,
  ◌≢◌, List, ℕ, zero, suc, [], ◌∷◌,
}
use workqueue.Chains.Shape.{Runs-append, AreApart, Runs}
use workqueue.Chains.Trees.{tree_link, last_sibling, Trees}

-- The children of an element, in their order.
pub record Family (t : Trees) (q : ℕ) (kids : List ℕ) : Type 0 where
  pub runs : Runs t.sibling (t.child q) kids
  pub apart : AreApart kids
  pub parents : All (λ k. t.parent k ≡ q) kids

-- An element that is in no tree.
pub record Loose (t : Trees) (ptr : ℕ) : Type 0 where
  pub not_null : ptr ≢ 0
  pub no_child : t.child ptr ≡ 0
  pub no_sibling : t.sibling ptr ≡ 0

-- What linking an element behind the children of another keeps: the root, all parents but that of
-- the element, all first children but that of the other, and what stands behind every element
-- that was no child of it.
pub record Kept (t t' : Trees) (q ptr : ℕ) (kids : List ℕ) : Type 0 where
  pub root : t'.root ≡ t.root
  pub parent : (k : ℕ) → k ≢ ptr → t'.parent k ≡ t.parent k
  pub child : (k : ℕ) → k ≢ q → t'.child k ≡ t.child k
  pub sibling : (k : ℕ) → All (λ y. y ≢ k) kids → t'.sibling k ≡ t.sibling k

last_sibling-last : (fuel : ℕ) (h : ℕ → ℕ) (p : ℕ) → last_sibling fuel h p ≡ last fuel h p
unfolding last last_sibling
last_sibling-last zero h p = refl
last_sibling-last (suc fuel) h p = rw (last_sibling-last fuel h (h p)) refl

parents_put :
    (h : ℕ → ℕ) (q ptr v : ℕ) (kids : List ℕ)
    → All (λ k. k ≢ ptr) kids
    → All (λ k. h k ≡ q) kids
    → All (λ k. put h ptr v k ≡ q) kids
parents_put h q ptr v kids =
    All-combine (λ k. k ≢ ptr) (λ k. h k ≡ q) (λ k. put h ptr v k ≡ q) kids
      (λ k n e. put_other h ptr v k n ∙ e)

-- `_tree_link` of an element that is in no tree makes it the last child of the parent, behind
-- the other children in their order, in a tree that has a root, where it is none of those
-- children and the fuel is their number at least. The root is as before, and so are all parents
-- but that of the element, all first children but that of the parent, and the siblings of all
-- elements that were no child of it.
pub tree_link_lem :
    (fuel : ℕ) (t : Trees) (q ptr : ℕ) (kids : List ℕ)
    → Family t q kids
    → Loose t ptr
    → t.root ≢ 0
    → q ≢ 0
    → All (λ k. k ≢ ptr) kids
    → length kids ≤ fuel
    → (t' : Trees) × (tree_link fuel t q ptr ≡ some t')
      × Family t' q (kids ++ ptr ∷ [])
      × Kept t t' q ptr kids
unfolding tree_link Runs
tree_link_lem fuel t q ptr [] v l rooted some_q a enough =
    let a1 : (ptr == 0) ≡ false = ground (arith, l.not_null) in
    let a2 : (t.root == 0) ≡ false = ground (arith, rooted) in
    let a3 : (q == 0) ≡ false = ground (arith, some_q) in
    let a4 : (t.child q == 0) ≡ true = ground (arith, v.runs) in
    (
      record t { parent = put t.parent ptr q; child = put t.child q ptr },
      rw (a1, a2, a3, a4) refl,
      record {
        runs = (put_same t.child q ptr, l.not_null, l.no_sibling);
        apart = AreApart-append [] ptr v.apart a;
        parents = (put_same t.parent ptr q, tt);
      },
      record {
        root = refl;
        parent = put_other t.parent ptr q;
        child = put_other t.child q ptr;
        sibling = λ k o. refl;
      },
    )
tree_link_lem fuel t q ptr (x ∷ xs) v l rooted some_q a enough =
    let a1 : (ptr == 0) ≡ false = ground (arith, l.not_null) in
    let a2 : (t.root == 0) ≡ false = ground (arith, rooted) in
    let a3 : (q == 0) ≡ false = ground (arith, some_q) in
    let a4 : (t.child q == 0) ≡ false = ground (arith, v.runs.0, v.runs.1) in
    let (z, found, longer, inside) =
      Runs-append fuel t.sibling (t.child q) ptr x xs v.runs v.apart a l.not_null l.no_sibling
        (omega arith) in
    (
      record t { parent = put t.parent ptr q; sibling = put t.sibling z ptr },
      rw (a1, a2, a3, a4, last_sibling-last fuel t.sibling (t.child q), found) refl,
      record {
        runs = longer;
        apart = AreApart-append (x ∷ xs) ptr v.apart a;
        parents =
            All-append (λ k. put t.parent ptr q k ≡ q) (x ∷ xs) (ptr ∷ [])
              (parents_put t.parent q ptr q (x ∷ xs) a v.parents) (put_same t.parent ptr q, tt);
      },
      record {
        root = refl;
        parent = put_other t.parent ptr q;
        child = λ k o. refl;
        sibling = λ k o. put_other t.sibling z ptr k (inside k o);
      },
    )
