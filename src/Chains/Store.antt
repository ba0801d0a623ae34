-- ===== src/Chains/Store.antt =====
-- The field that links the elements: for each address the address that is stored there. 0 is NULL.
use workqueue.Prelude.{◌==◌, arith, if◌then◌else◌, ◌≡◌, ◌≢◌, ℕ}

abbrev pub Store : Type 0
Store = ℕ → ℕ

abbrev pub put : Store → ℕ → ℕ → Store
put h p v q = if q == p then v else h q

pub put_same : (h : Store) (p v : ℕ) → put h p v p ≡ v
put_same h p v = ground arith

pub put_other : (h : Store) (p v q : ℕ) → q ≢ p → put h p v q ≡ h q
put_other h p v q e = ground arith

-- A head pointer in a store.
pub record Chain : Type 0 where
  pub head : ℕ
  pub links : Store
