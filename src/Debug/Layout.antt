-- ===== src/Debug/Layout.antt =====
-- The layout of the last line of `_debug_memory`.
use workqueue.Debug.Sinks.{write_at}
use workqueue.Debug.Listing.{printable, hex_pair, rest_loop}
use workqueue.Prelude.{
  drop, append_assoc, ap, ◌∙◌, take-append_short, take, set, ◌+◌, arith, ◌-◌, map, ◌≡◌, replicate,
  ◌<◌, length, ◌≢◌, ◌++◌, List, ℕ, zero, suc, refl, [], ◌∷◌,
}

-- Columns for digits: one for each byte, and blank ones up to a number.
unfoldable pub columns : ℕ → List ℕ → List ℕ
unfolding hex_pair
columns zero bs = 0x20 ∷ []
columns (suc k) [] = 0x20 ∷ 0x20 ∷ 0x20 ∷ columns k []
columns (suc k) (b ∷ bs) = hex_pair b ++ 0x20 ∷ columns k bs

pub tail_layout :
    (bs : List ℕ)
    → bs ≢ []
    → length bs < 16
    → rest_loop 2 51 0 bs (replicate 86 0x20)
      ≡ 0x20 ∷ 0x20 ∷ columns 16 bs
        ++ map printable bs
        ++ 0x0a ∷ 0 ∷ replicate (33 - length bs) 0x20
unfolding rest_loop columns printable hex_pair
tail_layout [] filled small = absurd (filled refl)
tail_layout (b0 ∷ []) filled small = refl
tail_layout (b0 ∷ b1 ∷ []) filled small = refl
tail_layout (b0 ∷ b1 ∷ b2 ∷ []) filled small = refl
tail_layout (b0 ∷ b1 ∷ b2 ∷ b3 ∷ []) filled small = refl
tail_layout (b0 ∷ b1 ∷ b2 ∷ b3 ∷ b4 ∷ []) filled small = refl
tail_layout (b0 ∷ b1 ∷ b2 ∷ b3 ∷ b4 ∷ b5 ∷ []) filled small = refl
tail_layout (b0 ∷ b1 ∷ b2 ∷ b3 ∷ b4 ∷ b5 ∷ b6 ∷ []) filled small = refl
tail_layout (b0 ∷ b1 ∷ b2 ∷ b3 ∷ b4 ∷ b5 ∷ b6 ∷ b7 ∷ []) filled small = refl
tail_layout (b0 ∷ b1 ∷ b2 ∷ b3 ∷ b4 ∷ b5 ∷ b6 ∷ b7 ∷ b8 ∷ []) filled small = refl
tail_layout (b0 ∷ b1 ∷ b2 ∷ b3 ∷ b4 ∷ b5 ∷ b6 ∷ b7 ∷ b8 ∷ b9 ∷ []) filled small = refl
tail_layout (b0 ∷ b1 ∷ b2 ∷ b3 ∷ b4 ∷ b5 ∷ b6 ∷ b7 ∷ b8 ∷ b9 ∷ b10 ∷ []) filled small = refl
tail_layout (b0 ∷ b1 ∷ b2 ∷ b3 ∷ b4 ∷ b5 ∷ b6 ∷ b7 ∷ b8 ∷ b9 ∷ b10 ∷ b11 ∷ []) filled small = refl
tail_layout (b0 ∷ b1 ∷ b2 ∷ b3 ∷ b4 ∷ b5 ∷ b6 ∷ b7 ∷ b8 ∷ b9 ∷ b10 ∷ b11 ∷ b12 ∷ []) filled small =
    refl
tail_layout (b0 ∷ b1 ∷ b2 ∷ b3 ∷ b4 ∷ b5 ∷ b6 ∷ b7 ∷ b8 ∷ b9 ∷ b10 ∷ b11 ∷ b12 ∷ b13 ∷ []) filled
      small =
    refl
tail_layout (b0 ∷ b1 ∷ b2 ∷ b3 ∷ b4 ∷ b5 ∷ b6 ∷ b7 ∷ b8 ∷ b9 ∷ b10 ∷ b11 ∷ b12 ∷ b13 ∷ b14 ∷ [])
      filled small =
    refl
tail_layout
      (b0 ∷ b1 ∷ b2 ∷ b3 ∷ b4 ∷ b5 ∷ b6 ∷ b7 ∷ b8 ∷ b9 ∷ b10 ∷ b11 ∷ b12 ∷ b13 ∷ b14 ∷ b15 ∷ bs)
      filled small =
    absurd (omega arith)

-- A line for bytes of which there are at most 16.
unfoldable pub row : List ℕ → List ℕ → List ℕ
unfolding columns
row pointer bs = pointer ++ (0x20 ∷ 0x20 ∷ columns 16 bs ++ map printable bs ++ 0x0a ∷ [])

-- What is written behind a text in front is written as if the text were not there.
module _ (p tail : List ℕ) where
  pub set-behind : (m k v : ℕ) → m ≡ length p + k → set (p ++ tail) m v ≡ p ++ set tail k v
  set-behind m k v e = set_from p m e
    where
      set_from : (p : List ℕ) (m : ℕ) → m ≡ length p + k → set (p ++ tail) m v ≡ p ++ set tail k v
      set_from [] m e = let same : m ≡ k = omega arith in λ i. set tail (same i) v
      set_from (x ∷ p) zero e = absurd (omega arith)
      set_from (x ∷ p) (suc m) e = ap (λ (l : List ℕ). x ∷ l) (set_from p m (omega arith))

  take-behind : (m k : ℕ) → m ≡ length p + k → take m (p ++ tail) ≡ p ++ take k tail
  take-behind m k e =
      let left : m - length p ≡ k = omega arith in
      take-append_short m p tail (omega arith) ∙ (λ i. p ++ take (left i) tail)

  drop-behind : (m k : ℕ) → m ≡ length p + k → drop m (p ++ tail) ≡ drop k tail
  drop-behind m k e = drop_from p m e
    where
      drop_from : (p : List ℕ) (m : ℕ) → m ≡ length p + k → drop m (p ++ tail) ≡ drop k tail
      drop_from [] m e = let same : m ≡ k = omega arith in λ i. drop (same i) tail
      drop_from (x ∷ p) zero e = absurd (omega arith)
      drop_from (x ∷ p) (suc m) e = drop_from p m (omega arith)

  pub write_at-behind :
      (m k : ℕ) (us : List ℕ)
      → m ≡ length p + k
      → write_at m us (p ++ tail) ≡ p ++ write_at k us tail
  write_at-behind m k us e =
      let ds = drop (k + length us) tail in
      (λ i.
        take-behind m k e i ++ us ++ drop-behind (m + length us) (k + length us) (omega arith) i)
      ∙ (λ i. append_assoc p (take k tail) us i ++ ds)
      ∙ append_assoc p (take k tail ++ us) ds
