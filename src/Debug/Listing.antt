-- ===== src/Debug/Listing.antt =====
-- `_debug_memory` of debug.c where a pointer has 64 bits: the lines that it gives to `_debug`.
-- What `%p` prints for an address is an argument.
use workqueue.Debug.Sinks.{string_at, write_at}
use workqueue.Prelude.{
  take, ◌==◌, zero, suc, drop, ◌&&◌, ◌*◌, ◌%◌, map, ◌+◌, length, leb, ltb, replicate, ◌/◌, set,
  if◌then◌else◌, ◌++◌, List, ℕ, [], ◌∷◌,
}

unfoldable pub hex_digit : ℕ → ℕ
hex_digit d = if ltb d 10 then 0x30 + d else 0x57 + d

-- "%02x" of a byte
unfoldable pub hex_pair : ℕ → List ℕ
unfolding hex_digit
hex_pair b = hex_digit (b / 16) ∷ hex_digit (b % 16) ∷ []

-- PVC: what is not printable is a dot.
unfoldable pub printable : ℕ → ℕ
printable b = if leb 0x20 b && leb b 0x7e then b else 0x2e

unfoldable pub spaced : List ℕ → List ℕ
unfolding hex_pair
spaced [] = []
spaced (b ∷ bs) = hex_pair b ++ 0x20 ∷ spaced bs

-- The line of 16 bytes, by its format.
unfoldable pub full_line : List ℕ → List ℕ → List ℕ
unfolding spaced printable
full_line pointer bs = pointer ++ 0x20 ∷ 0x20 ∷ spaced bs ++ 0x20 ∷ map printable bs ++ 0x0a ∷ []

-- One byte of the last line: its digits with a space, its character, and behind the last the
-- end. Both places move on with the number of the byte.
abbrev pub put_digits : ℕ → ℕ → ℕ → List ℕ → List ℕ
put_digits hexes i b buffer =
    set (write_at (hexes + (i * 2 + i)) (hex_pair b ++ 0 ∷ []) buffer) (hexes + (i * 2 + i) + 2)
      0x20

abbrev pub put_ascii : ℕ → ℕ → ℕ → List ℕ → List ℕ
put_ascii chars i b buffer = write_at (chars + i) (printable b ∷ 0 ∷ []) buffer

unfoldable pub rest_loop : ℕ → ℕ → ℕ → List ℕ → List ℕ → List ℕ
unfolding hex_pair printable
rest_loop hexes chars i [] buffer = buffer
rest_loop hexes chars i (b ∷ []) buffer =
    set (set (put_ascii chars i b (put_digits hexes i b buffer)) (chars + i + 1) 0x0a)
      (chars + i + 2) 0
rest_loop hexes chars i (b ∷ c ∷ bs) buffer =
    rest_loop hexes chars (i + 1) (c ∷ bs) (put_ascii chars i b (put_digits hexes i b buffer))

-- The last line, of less than 16 bytes: a buffer of 100 spaces, where the pointer is printed
-- first.
unfoldable pub rest_line : List ℕ → List ℕ → List ℕ
unfolding rest_loop
rest_line pointer bs =
    let blank = replicate 100 0x20 in
    let started = set (write_at 0 (pointer ++ 0 ∷ []) blank) (length pointer) 0x20 in
    string_at (rest_loop (6 + 10) (6 + 59) 0 bs started)

-- The lines of the bytes, from an address on: so many full ones, and one for the rest.
unfoldable pub data_lines : (ℕ → List ℕ) → ℕ → ℕ → List ℕ → List (List ℕ)
unfolding full_line rest_line
data_lines print_p a zero m = if length m == 0 then [] else rest_line (print_p a) m ∷ []
data_lines print_p a (suc k) m =
    full_line (print_p a) (take 16 m) ∷ data_lines print_p (a + 16) k (drop 16 m)

-- The lines between the heading and the last rule.
unfoldable pub debug_memory : (ℕ → List ℕ) → ℕ → List ℕ → List (List ℕ)
unfolding data_lines
debug_memory print_p a m = data_lines print_p a (length m / 16) m
