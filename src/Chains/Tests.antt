-- ===== src/Chains/Tests.antt =====
-- Stores with a few elements, and the theorems at them.
use workqueue.Chains.Doubles.{doublelist_unlink, RunsBoth, Doubles}
use workqueue.Chains.DoubleUnlink.{doublelist_unlink_lem, HoldsBoth, DoubleUnlinked}
use workqueue.Chains.Lists.{list_unlink_lem, list_unlink, list_find, first_of, without}
use workqueue.Chains.Queues.{Holds, queue_fifo, pop_all, push_all}
use workqueue.Chains.Again.{chain}
use workqueue.Chains.Calls.{chain_length}
use workqueue.Chains.Store.{put, Chain, Store}
use workqueue.Chains.Shape.{AreApart, Runs}
use workqueue.Prelude.{◌⊎◌, ℕ, arith, ◌≡◌, ◌==◌, if◌then◌else◌, refl, some, [], ◌∷◌}

abbrev blank : Store
blank p = 0

-- 16 is linked to 32.
abbrev two : Store
two p = if p == 16 then 32 else 0

queue_fifo_example :
    (c : Chain) × (push_all 4 (16 ∷ 48 ∷ 32 ∷ []) (record { head = 0; links = blank }) ≡ some c)
    × (chain_length 4 c ≡ some 3)
    × (pop_all 3 c ≡ 16 ∷ 48 ∷ 32 ∷ [])
unfolding AreApart
queue_fifo_example =
    queue_fifo 4 blank (16 ∷ 48 ∷ 32 ∷ [])
      (
        ((λ e. ground arith), refl),
        (((λ e. ground arith), refl), (((λ e. ground arith), refl), tt)),
      )
      (((λ e. ground arith), ((λ e. ground arith), tt)), (((λ e. ground arith), tt), (tt, tt)))
      (omega arith)

two-Holds : Holds (chain two 16) (16 ∷ 32 ∷ [])
unfolding Runs AreApart
two-Holds = record {
  runs = (refl, (λ e. ground arith), (refl, (λ e. ground arith), refl));
  apart = (((λ e. ground arith), tt), (tt, tt));
}

list_unlink_lem_example :
    (list_find 3 (chain two 16) (λ p. p == 32) ≡ some 32)
    × ((c' : Chain) × (list_unlink 3 (chain two 16) (λ p. p == 32) ≡ some (32, c'))
        × Holds c' (16 ∷ [])
        × (◌≡◌ {A = ℕ} 32 0 ⊎ (c'.links 32 ≡ 0)))
unfolding first_of without
list_unlink_lem_example =
    list_unlink_lem 3 (chain two 16) (λ p. p == 32) (16 ∷ 32 ∷ []) two-Holds (omega arith)

abbrev pair : Doubles
pair = record { top = 16; after = put (λ q. 0) 16 32; before = put (λ q. 0) 32 16 }

pair-HoldsBoth : HoldsBoth pair (16 ∷ 32 ∷ [])
unfolding RunsBoth AreApart
pair-HoldsBoth = record {
  runs = (refl, omega arith, refl, (refl, omega arith, refl, refl));
  apart = ((omega arith, tt), (tt, tt));
}

doublelist_unlink_lem_example :
    DoubleUnlinked (λ p. p == 32) (16 ∷ 32 ∷ []) (doublelist_unlink 3 (λ p. p == 32) pair)
doublelist_unlink_lem_example =
    doublelist_unlink_lem 3 pair (λ p. p == 32) (16 ∷ 32 ∷ []) pair-HoldsBoth (omega arith)
