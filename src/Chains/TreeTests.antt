-- ===== src/Chains/TreeTests.antt =====
-- A tree, and the theorems at it.
use workqueue.Chains.Lists.{first_of}
use workqueue.Chains.FamilyCut.{tree_unlink_lem}
use workqueue.Chains.Clearing.{tree_clear_lem, Outside}
use workqueue.Chains.Store.{put}
use workqueue.Chains.Shape.{Runs, AreApart}
use workqueue.Chains.Families.{Kept, tree_link_lem, Family, Loose}
use workqueue.Chains.Trees.{tree_clear, tree_link, tree_unlink, Trees, tree_find}
use workqueue.Prelude.{◌≡◌, ◌==◌, arith, ◌<◌, refl, some, [], ◌∷◌}
use workqueue.Chains.Forests.{postorder, tree_find_lem, preorder, Grows, Forest, size, bare, branch}

-- Three children of a root, the second with a child.
abbrev family : Trees
family = record {
  root = 1;
  parent = put (put (put (put (λ q. 0) 2 1) 3 1) 4 1) 5 3;
  child = put (put (λ q. 0) 1 2) 3 5;
  sibling = put (put (λ q. 0) 2 3) 3 4;
}

abbrev its_forest : Forest
its_forest = branch 1 (branch 2 bare (branch 3 (branch 5 bare bare) (branch 4 bare bare))) bare

family-Grows : Grows family 0 1 its_forest
unfolding Grows
family-Grows = (
  refl,
  omega arith,
  refl,
  (
    refl,
    omega arith,
    refl,
    refl,
    (
      refl,
      omega arith,
      refl,
      (refl, omega arith, refl, refl, refl),
      (refl, omega arith, refl, refl, refl),
    ),
  ),
  refl,
)

its_forest-AreApart : AreApart (preorder its_forest)
unfolding AreApart preorder
its_forest-AreApart = (
  (omega arith, (omega arith, (omega arith, (omega arith, tt)))),
  (
    (omega arith, (omega arith, (omega arith, tt))),
    ((omega arith, (omega arith, tt)), ((omega arith, tt), (tt, tt))),
  ),
)

family-Family : Family family 1 (2 ∷ 3 ∷ 4 ∷ [])
unfolding Runs AreApart
family-Family = record {
  runs = (refl, omega arith, (refl, omega arith, (refl, omega arith, refl)));
  apart = ((omega arith, (omega arith, tt)), ((omega arith, tt), (tt, tt)));
  parents = (refl, (refl, (refl, tt)));
}

small_tree : size its_forest < 6
unfolding size
small_tree = omega arith

tree_find_lem_example :
    tree_find 6 family (λ p. p == 4) 1 ≡ some (first_of (λ p. p == 4) (preorder its_forest))
tree_find_lem_example = tree_find_lem 6 family (λ p. p == 4) 0 1 its_forest family-Grows small_tree

tree_clear_lem_example :
    (t' : Trees) × (tree_clear 6 (λ p. (99, 98, 97)) family 1 ≡ some (postorder its_forest, t'))
    × Outside (preorder its_forest) family t'
tree_clear_lem_example =
    tree_clear_lem 6 (λ p. (99, 98, 97)) family 0 1 its_forest family-Grows its_forest-AreApart
      small_tree

six-Loose : Loose family 6
six-Loose = record { not_null = omega arith; no_child = refl; no_sibling = refl }

tree_link_lem_example :
    (t' : Trees) × (tree_link 3 family 1 6 ≡ some t')
    × Family t' 1 (2 ∷ 3 ∷ 4 ∷ 6 ∷ [])
    × Kept family t' 1 6 (2 ∷ 3 ∷ 4 ∷ [])
tree_link_lem_example =
    tree_link_lem 3 family 1 6 (2 ∷ 3 ∷ 4 ∷ []) family-Family six-Loose (omega arith) (omega arith)
      (omega arith, (omega arith, (omega arith, tt))) (omega arith)

finds_three : first_of (λ p. p == 3) (preorder its_forest) ≡ 3
unfolding first_of preorder
finds_three = refl

tree_unlink_lem_example :
    (t' : Trees) × (tree_unlink 6 family 0 (λ p. p == 3) ≡ some (3, t'))
    × Family t' 1 (2 ∷ 4 ∷ [])
    × (t'.parent 3 ≡ 0)
    × (t'.sibling 3 ≡ 0)
    × (t'.root ≡ 1)
    × Outside (1 ∷ 2 ∷ 3 ∷ 4 ∷ []) family t'
tree_unlink_lem_example =
    tree_unlink_lem 6 family 0 (λ p. p == 3) 0 its_forest 1 3 (2 ∷ []) (4 ∷ []) family-Grows
      small_tree finds_three family-Family (omega arith) (omega arith) (omega arith) (omega arith)
