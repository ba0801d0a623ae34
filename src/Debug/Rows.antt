-- ===== src/Debug/Rows.antt =====
-- All lines of `_debug_memory` have one layout.
use workqueue.Debug.Messages.{IsText-append, IsText}
use workqueue.Debug.Listing.{
  data_lines, debug_memory, spaced, rest_line, full_line, put_ascii, put_digits, hex_pair,
  rest_loop, hex_digit, printable,
}
use workqueue.Debug.Layout.{tail_layout, row, set-behind, write_at-behind, columns}
use workqueue.Debug.Sinks.{write_at, string_at}
use workqueue.Prelude.{
  subst, length-drop, length-take, ◌≤◌, sym, take, ◌-◌, zero, suc, ◌<◌, drop, append_assoc, ◌*◌,
  length-append, ap, ◌∙◌, replicate, ◌%◌, ◌/◌, ◌==◌, ◌+◌, ◌++◌, set, arith, map, ◌≡◌, length, ◌≢◌,
  ℕ, List, zero, suc, refl, false, [], ◌∷◌,
}

put_digits-behind :
    (p tail : List ℕ) (hexes hexes' i b : ℕ)
    → hexes ≡ length p + hexes'
    → put_digits hexes i b (p ++ tail) ≡ p ++ put_digits hexes' i b tail
put_digits-behind p tail hexes hexes' i b e =
    let us = hex_pair b ++ 0 ∷ [] in
    (λ j.
      set (write_at-behind p tail (hexes + (i * 2 + i)) (hexes' + (i * 2 + i)) us (omega arith) j)
        (hexes + (i * 2 + i) + 2) 0x20)
    ∙ set-behind p (write_at (hexes' + (i * 2 + i)) us tail) (hexes + (i * 2 + i) + 2)
        (hexes' + (i * 2 + i) + 2) 0x20 (omega arith)

put_both-behind :
    (p tail : List ℕ) (hexes hexes' chars chars' i b : ℕ)
    → hexes ≡ length p + hexes'
    → chars ≡ length p + chars'
    → put_ascii chars i b (put_digits hexes i b (p ++ tail))
      ≡ p ++ put_ascii chars' i b (put_digits hexes' i b tail)
put_both-behind p tail hexes hexes' chars chars' i b e f =
    (λ j. put_ascii chars i b (put_digits-behind p tail hexes hexes' i b e j))
    ∙ write_at-behind p (put_digits hexes' i b tail) (chars + i) (chars' + i) (printable b ∷ 0 ∷ [])
        (omega arith)

rest_loop-behind :
    (p : List ℕ) (hexes hexes' chars chars' i : ℕ) (bs tail : List ℕ)
    → hexes ≡ length p + hexes'
    → chars ≡ length p + chars'
    → rest_loop hexes chars i bs (p ++ tail) ≡ p ++ rest_loop hexes' chars' i bs tail
unfolding rest_loop
rest_loop-behind p hexes hexes' chars chars' i [] tail e f = refl
rest_loop-behind p hexes hexes' chars chars' i (b ∷ []) tail e f =
    let last = put_ascii chars' i b (put_digits hexes' i b tail) in
    (λ j.
      set (set (put_both-behind p tail hexes hexes' chars chars' i b e f j) (chars + i + 1) 0x0a)
        (chars + i + 2) 0)
    ∙ (λ j.
        set (set-behind p last (chars + i + 1) (chars' + i + 1) 0x0a (omega arith) j)
          (chars + i + 2) 0)
    ∙ set-behind p (set last (chars' + i + 1) 0x0a) (chars + i + 2) (chars' + i + 2) 0 (omega arith)
rest_loop-behind p hexes hexes' chars chars' i (b ∷ c ∷ bs) tail e f =
    (λ j.
      rest_loop hexes chars (i + 1) (c ∷ bs)
        (put_both-behind p tail hexes hexes' chars chars' i b e f j))
    ∙ rest_loop-behind p hexes hexes' chars chars' (i + 1) (c ∷ bs)
        (put_ascii chars' i b (put_digits hexes' i b tail)) e f

-- The buffer with the pointer in it.
started_shape :
    (p : List ℕ)
    → length p ≡ 14
    → set (write_at 0 (p ++ 0 ∷ []) (replicate 100 0x20)) (length p) 0x20 ≡ p ++ replicate 86 0x20
started_shape p e =
    let written : 0 + length (p ++ 0 ∷ []) ≡ 15 = omega (arith, e, length-append p (0 ∷ [])) in
    (λ j. set (p ++ 0 ∷ [] ++ drop (written j) (replicate 100 0x20)) (length p) 0x20)
    ∙ (λ j. set (append_assoc p (0 ∷ []) (replicate 85 0x20) j) (length p) 0x20)
    ∙ set-behind p (0 ∷ replicate 85 0x20) (length p) 0 0x20 (omega arith)

string_at-end : (us rest : List ℕ) → IsText us → string_at (us ++ 0 ∷ rest) ≡ us
unfolding string_at
string_at-end [] rest a = refl
string_at-end (u ∷ us) rest (nz, a) =
    let here : (u == 0) ≡ false = ground (arith, nz) in
    rw here (ap (λ (l : List ℕ). u ∷ l) (string_at-end us rest a))

hex_digit-positive : (d : ℕ) → hex_digit d ≢ 0
unfolding hex_digit
hex_digit-positive d = ground arith

printable-positive : (b : ℕ) → printable b ≢ 0
unfolding printable
printable-positive b = ground arith

columns-IsText : (k : ℕ) (bs : List ℕ) → IsText (columns k bs)
unfolding columns hex_pair
columns-IsText zero bs = (omega arith, tt)
columns-IsText (suc k) [] = (omega arith, (omega arith, (omega arith, columns-IsText k [])))
columns-IsText (suc k) (b ∷ bs) =
    (hex_digit-positive (b / 16), (hex_digit-positive (b % 16), (omega arith, columns-IsText k bs)))

chars-IsText : (bs : List ℕ) → IsText (map printable bs)
chars-IsText [] = tt
chars-IsText (b ∷ bs) = (printable-positive b, chars-IsText bs)

append_five :
    (p xs ys : List ℕ) (n : ℕ)
    → p ++ (0x20 ∷ 0x20 ∷ xs ++ ys ++ 0x0a ∷ 0 ∷ replicate n 0x20)
      ≡ p ++ (0x20 ∷ 0x20 ∷ xs ++ ys ++ 0x0a ∷ []) ++ 0 ∷ replicate n 0x20
append_five p xs ys n =
    let front = 0x20 ∷ 0x20 ∷ xs ++ ys in
    let rest = 0 ∷ replicate n 0x20 in
    sym (
      append_assoc p (front ++ 0x0a ∷ []) rest
      ∙ ap (λ (l : List ℕ). p ++ l) (append_assoc front (0x0a ∷ []) rest))

row-IsText :
    (p bs : List ℕ)
    → IsText p
    → IsText (p ++ (0x20 ∷ 0x20 ∷ columns 16 bs ++ map printable bs ++ 0x0a ∷ []))
row-IsText p bs text =
    let digits = 0x20 ∷ 0x20 ∷ columns 16 bs in
    let digits_text : IsText digits = (omega arith, (omega arith, columns-IsText 16 bs)) in
    let end_text : IsText (0x0a ∷ []) = (omega arith, tt) in
    IsText-append p (digits ++ map printable bs ++ 0x0a ∷ []) text (
      IsText-append (digits ++ map printable bs) (0x0a ∷ [])
        (IsText-append digits (map printable bs) digits_text (chars-IsText bs)) end_text)

rest_line-row :
    (p bs : List ℕ)
    → length p ≡ 14
    → IsText p
    → bs ≢ []
    → length bs < 16
    → rest_line p bs ≡ row p bs
unfolding rest_line row
rest_line-row p bs e text filled small =
    (λ j. string_at (rest_loop 16 65 0 bs (started_shape p e j)))
    ∙ (λ j. string_at (
        rest_loop-behind p 16 2 65 51 0 bs (replicate 86 0x20) (omega (arith, e)) (omega (arith, e))
          j))
    ∙ (λ j. string_at (p ++ tail_layout bs filled small j))
    ∙ (λ j. string_at (append_five p (columns 16 bs) (map printable bs) (33 - length bs) j))
    ∙ string_at-end (p ++ (0x20 ∷ 0x20 ∷ columns 16 bs ++ map printable bs ++ 0x0a ∷ []))
        (replicate (33 - length bs) 0x20) (row-IsText p bs text)

columns-spaced : (k : ℕ) (bs : List ℕ) → length bs ≡ k → columns k bs ≡ spaced bs ++ 0x20 ∷ []
unfolding columns spaced hex_pair
columns-spaced zero [] e = refl
columns-spaced zero (b ∷ bs) e = absurd (omega arith)
columns-spaced (suc k) [] e = absurd (omega arith)
columns-spaced (suc k) (b ∷ bs) e =
    ap (λ (l : List ℕ). hex_digit (b / 16) ∷ hex_digit (b % 16) ∷ 0x20 ∷ l)
      (columns-spaced k bs (omega arith))

full_line-row : (p bs : List ℕ) → length bs ≡ 16 → full_line p bs ≡ row p bs
unfolding full_line row
full_line-row p bs e =
    let front = 0x20 ∷ 0x20 ∷ spaced bs in
    let chars = map printable bs in
    let back = front ++ 0x20 ∷ chars in
    (λ j. append_assoc p front (0x20 ∷ chars) j ++ 0x0a ∷ [])
    ∙ append_assoc p back (0x0a ∷ [])
    ∙ (λ j. p ++ (sym (append_assoc front (0x20 ∷ []) chars) j ++ 0x0a ∷ []))
    ∙ (λ j. p ++ (0x20 ∷ 0x20 ∷ sym (columns-spaced 16 bs e) j ++ chars ++ 0x0a ∷ []))

-- The rows of the bytes, from an address on: so many of 16, and one for what is left.
unfoldable pub rows : (ℕ → List ℕ) → ℕ → ℕ → List ℕ → List (List ℕ)
unfolding row
rows print_p a zero [] = []
rows print_p a zero (b ∷ bs) = row (print_p a) (b ∷ bs) ∷ []
rows print_p a (suc k) m = row (print_p a) (take 16 m) ∷ rows print_p (a + 16) k (drop 16 m)

-- The addresses in front of the lines are printed in 14 characters, as glibc prints those from
-- 2^44 on to 2^48.
abbrev pub Wide : (ℕ → List ℕ) → ℕ → ℕ → Type 0
Wide print_p a n =
    (k : ℕ) → k * 16 < n → (length (print_p (a + k * 16)) ≡ 14) × IsText (print_p (a + k * 16))

Wide-behind :
    (print_p : ℕ → List ℕ) (a n n' : ℕ) → n' + 16 ≡ n → Wide print_p a n → Wide print_p (a + 16) n'
Wide-behind print_p a n n' e wide k small =
    let moved : a + suc k * 16 ≡ a + 16 + k * 16 = omega arith in
    subst (λ q. (length (print_p q) ≡ 14) × IsText (print_p q)) moved (wide (suc k) (omega arith))

data_lines-rows :
    (print_p : ℕ → List ℕ) (a k : ℕ) (m : List ℕ)
    → Wide print_p a (length m)
    → length m / 16 ≡ k
    → data_lines print_p a k m ≡ rows print_p a k m
unfolding data_lines rows
data_lines-rows print_p a zero [] pointers e = refl
data_lines-rows print_p a zero (b ∷ bs) pointers e =
    let few : length (b ∷ bs) < 16 = omega arith in
    let first : a + 0 * 16 ≡ a = omega arith in
    let pointer =
      subst (λ q. (length (print_p q) ≡ 14) × IsText (print_p q)) first
        (pointers 0 (omega arith)) in
    let some_bytes : (length (b ∷ bs) == 0) ≡ false = ground arith in
    rw some_bytes (λ j. rest_line-row (print_p a) (b ∷ bs) pointer.0 pointer.1 (λ e. cc) few j ∷ [])
data_lines-rows print_p a (suc k) m pointers e =
    let enough : 16 ≤ length m = omega arith in
    let first = full_line-row (print_p a) (take 16 m) (length-take 16 m enough) in
    let fewer : length (drop 16 m) / 16 ≡ k = omega (arith, length-drop 16 m) in
    let wide =
      Wide-behind print_p a (length m) (length (drop 16 m)) (omega (arith, length-drop 16 m))
        pointers in
    λ j. first j ∷ data_lines-rows print_p (a + 16) k (drop 16 m) wide fewer j

-- `_debug_memory`, where `%p` prints the addresses in front of the lines in 14 characters:
-- every line, the last one too, that is put together another way, has the address, columns for
-- 16 bytes, of which those without a byte are blank, and the characters of the bytes; the lines
-- are for 16 bytes each and what is left, in their order.
pub debug_memory_lem :
    (print_p : ℕ → List ℕ) (a : ℕ) (m : List ℕ)
    → Wide print_p a (length m)
    → debug_memory print_p a m ≡ rows print_p a (length m / 16) m
unfolding debug_memory
debug_memory_lem print_p a m pointers = data_lines-rows print_p a (length m / 16) m pointers refl
