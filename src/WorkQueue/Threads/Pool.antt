-- ===== src/WorkQueue/Threads/Pool.antt =====
-- Threads by their index, and sums of a weight over all of them.
use workqueue.Prelude.{
  ◌∙◌, ℕ_discrete, ap, ◌≤◌, arith, ◌≢◌, set, ◌≡◌, All, get_elem?, ◌+◌, List, ℕ, zero, suc, refl,
  some, [], ◌∷◌,
}

module _ {ℓ} {A : Type ℓ} (weight : A → ℕ) where
  unfoldable pub weigh : List A → ℕ
  weigh [] = 0
  weigh (p ∷ pool) = weight p + weigh pool

  -- What one thread's change does to the sum.
  pub weigh-set :
      (pool : List A) (i : ℕ) (p q : A)
      → get_elem? pool i ≡ some p
      → weigh (set pool i q) + weight p ≡ weigh pool + weight q
  unfolding weigh
  weigh-set [] i p q e = cc
  weigh-set (x ∷ pool) zero p q e = let same : weight x ≡ weight p = cc in omega (arith, same)
  weigh-set (x ∷ pool) (suc i) p q e = omega (arith, weigh-set pool i p q e)

  pub weigh-le : (pool : List A) (i : ℕ) (p : A) → get_elem? pool i ≡ some p → weight p ≤ weigh pool
  unfolding weigh
  weigh-le [] i p e = cc
  weigh-le (x ∷ pool) zero p e = let same : weight x ≡ weight p = cc in omega (arith, same)
  weigh-le (x ∷ pool) (suc i) p e = omega (arith, weigh-le pool i p e)

  pub weigh-pair :
      (pool : List A) (i j : ℕ) (p q : A)
      → get_elem? pool i ≡ some p
      → get_elem? pool j ≡ some q
      → i ≢ j
      → weight p + weight q ≤ weigh pool
  unfolding weigh
  weigh-pair [] i j p q e f d = cc
  weigh-pair (x ∷ pool) zero zero p q e f d = absurd (d refl)
  weigh-pair (x ∷ pool) zero (suc j) p q e f d =
      let same : weight x ≡ weight p = cc in omega (arith, same, weigh-le pool j q f)
  weigh-pair (x ∷ pool) (suc i) zero p q e f d =
      let same : weight x ≡ weight q = cc in omega (arith, same, weigh-le pool i p e)
  weigh-pair (x ∷ pool) (suc i) (suc j) p q e f d =
      omega (arith, weigh-pair pool i j p q e f (λ s. d (ap suc s)))

  -- A sum that is not 0 has a thread that adds to it.
  pub weigh-found :
      (pool : List A)
      → weigh pool ≢ 0
      → (i : ℕ) × (p : A) × (get_elem? pool i ≡ some p) × (weight p ≢ 0)
  unfolding weigh
  weigh-found [] h = absurd (h refl)
  weigh-found (x ∷ pool) h = elim (ℕ_discrete (weight x) 0) [
    | yes none_here ↦
        let (i, p, at, heavy) = weigh-found pool (λ e. h (omega arith)) in (suc i, p, at, heavy)
    | no heavy ↦ (0, x, refl, heavy)
  ]

  pub weigh-constant :
      (pool : List A) (a : A) → All (λ p. p ≡ a) pool → weight a ≡ 0 → weigh pool ≡ 0
  unfolding weigh
  weigh-constant [] a h e = refl
  weigh-constant (x ∷ pool) a (h, hs) e =
      let here : weight x ≡ 0 = ap weight h ∙ e in omega (arith, weigh-constant pool a hs e)
