-- ===== src/Dictionary/Keys.antt =====
-- Strings, without their terminator, and the comparison of keys.
use workqueue.Prelude.{ap₂, List, ℕ, [], ◌∷◌, Bool, true, false, ◌==◌, ◌&&◌, ◌≡◌, refl, arith}

-- A string that a pointer other than NULL leads to.
abbrev pub Text : Type 0
Text = List ℕ

-- `!strcmp(k, j)`
unfoldable pub same : Text → Text → Bool
same [] [] = true
same (a ∷ k) (b ∷ j) = a == b && same k j
same k j = false

pub same_refl : (k : Text) → same k k ≡ true
unfolding same
same_refl [] = refl
same_refl (a ∷ k) = ground (arith, same_refl k)

pub same-eq : (k j : Text) → same k j ≡ true → k ≡ j
unfolding same
same-eq [] [] e = refl
same-eq [] (b ∷ j) e = cc
same-eq (a ∷ k) [] e = cc
same-eq (a ∷ k) (b ∷ j) e = ap₂ (λ x (l : Text). x ∷ l) (ground arith) (same-eq k j (ground arith))
