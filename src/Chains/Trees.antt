-- ===== src/Chains/Trees.antt =====
-- The trees of ds.c: elements that are linked to their parent, their first child and their next
-- sibling. Recursions run on fuel; none is a recursion that is out of it, or an access through NULL.
use workqueue.Chains.Store.{put}
use workqueue.Prelude.{
  ◌++◌, not, ◌==◌, with_some, none, List, Option, Bool, if◌then◌else◌, ℕ, zero, suc, some, [], ◌∷◌,
}

pub record Trees : Type 0 where
  pub root : ℕ
  pub parent : ℕ → ℕ
  pub child : ℕ → ℕ
  pub sibling : ℕ → ℕ

-- `while(current->sibling)`
unfoldable pub last_sibling : ℕ → (ℕ → ℕ) → ℕ → Option ℕ
last_sibling zero sibling p = none
last_sibling (suc fuel) sibling p =
    let rest = last_sibling fuel sibling (sibling p) in if sibling p == 0 then some p else rest

unfoldable pub tree_link : ℕ → Trees → ℕ → ℕ → Option Trees
unfolding last_sibling
tree_link fuel t parent ptr =
    if ptr == 0
    then some t
    else if t.root == 0
    then some (record t { root = ptr })
    else if parent == 0
    then some t
    else if t.child parent == 0
    then some (record t { parent = put t.parent ptr parent; child = put t.child parent ptr })
    else with_some (last_sibling fuel t.sibling (t.child parent)) (λ current.
      some (record t { parent = put t.parent ptr parent; sibling = put t.sibling current ptr }))

unfoldable pub tree_find : ℕ → Trees → (ℕ → Bool) → ℕ → Option ℕ
tree_find zero t func p = none
tree_find (suc fuel) t func p =
    let below = if t.child p == 0 then some 0 else tree_find fuel t func (t.child p) in
    let behind = if t.sibling p == 0 then some 0 else tree_find fuel t func (t.sibling p) in
    if p == 0
    then some 0
    else if func p
    then some p
    else with_some below (λ q. if q == 0 then behind else some q)

-- The loop of `_tree_unlink` over the children of a parent.
unfoldable pub unlink_child : ℕ → Trees → ℕ → ℕ → ℕ → Option Trees
unlink_child zero t ptr previous current = none
unlink_child (suc fuel) t ptr previous current =
    let cut =
      if previous == 0
      then record t { child = put t.child (t.parent current) (t.sibling current) }
      else record t { sibling = put t.sibling previous (t.sibling current) } in
    let taken = unlink_child fuel cut ptr current (cut.sibling current) in
    let passed = unlink_child fuel t ptr current (t.sibling current) in
    if current == 0 then some t else if current == ptr then taken else passed

-- `parent` and `sibling` of what is unlinked are reset.
abbrev pub loosened : Trees → ℕ → Trees
loosened t ptr = record t { parent = put t.parent ptr 0; sibling = put t.sibling ptr 0 }

unfoldable pub tree_unlink : ℕ → Trees → ℕ → (ℕ → Bool) → Option (ℕ × Trees)
unfolding tree_find unlink_child
tree_unlink fuel t parent func =
    with_some (tree_find fuel t func (if parent == 0 then t.root else parent)) (λ ptr.
      if ptr == 0
      then some (0, t)
      else if ptr == t.root
      then some (ptr, loosened (record t { root = 0 }) ptr)
      else if t.parent ptr == 0
      then none
      else with_some (unlink_child fuel t ptr 0 (t.child (t.parent ptr)))
          (λ u. some (ptr, loosened u ptr)))

-- The elements that the callback is called on, in their order.
unfoldable pub tree_look : ℕ → Trees → ℕ → Option (List ℕ)
tree_look zero t p = none
tree_look (suc fuel) t p =
    let below = if t.child p == 0 then some [] else tree_look fuel t (t.child p) in
    let behind = if t.sibling p == 0 then some [] else tree_look fuel t (t.sibling p) in
    if p == 0
    then some []
    else with_some below (λ xs. with_some behind (λ ys. some (xs ++ ys ++ p ∷ [])))

-- `_tree_clear`, where the callback leaves any parent, child and sibling in the element it is called on. The field
-- that leads to an element is set to NULL behind it.
abbrev pub Cleared : Type 0
Cleared = Option (List ℕ × Trees)

abbrev pub nothing : Trees → Cleared
nothing t = some ([], t)

abbrev pub spoiled : (ℕ → ℕ × ℕ × ℕ) → Trees → ℕ → Trees
spoiled spoil t p = record t {
  parent = put t.parent p (spoil p).0;
  child = put t.child p (spoil p).1;
  sibling = put t.sibling p (spoil p).2;
}

abbrev pub childless : ℕ → (List ℕ × Trees) → Cleared
childless p r = some (r.0, record r.1 { child = put r.1.child p 0 })

abbrev pub without_sibling : ℕ → (List ℕ × Trees) → Cleared
without_sibling p r = some (r.0, record r.1 { sibling = put r.1.sibling p 0 })

unfoldable pub tree_clear : ℕ → (ℕ → ℕ × ℕ × ℕ) → Trees → ℕ → Cleared
tree_clear zero spoil t p = none
tree_clear (suc fuel) spoil t p =
    let below = with_some (tree_clear fuel spoil t (t.child p)) (childless p) in
    if p == 0
    then nothing t
    else with_some (if t.child p == 0 then nothing t else below) (λ r.
      with_some
        (if r.1.sibling p == 0
          then nothing r.1
          else with_some (tree_clear fuel spoil r.1 (r.1.sibling p)) (without_sibling p))
        (λ u. some (r.0 ++ u.0 ++ p ∷ [], spoiled spoil u.1 p)))

unfoldable pub tree_parent : Trees → ℕ → ℕ
tree_parent t ptr = if ptr == 0 then 0 else t.parent ptr

unfoldable pub tree_next_child : Trees → ℕ → ℕ → ℕ
tree_next_child t parent ptr =
    if parent == 0 then 0 else if ptr == 0 then t.child parent else t.sibling ptr

unfoldable pub tree_have_child : Trees → ℕ → Bool
unfolding tree_next_child
tree_have_child t parent = not (tree_next_child t parent 0 == 0)
