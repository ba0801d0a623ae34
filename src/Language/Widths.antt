-- ===== src/Language/Widths.antt =====
-- The length functions of language.c. A pointer is the memory from it on: bytes, or 16-bit units
-- as a little-endian machine reads them. `none` is a read behind that memory. The lengths are of
-- type `unsigned int`, and wrap.
use workqueue.Platform.Codes.{dword}
use workqueue.Language.Bits.{swap_bytes}
use workqueue.Prelude.{
  ◌%◌, ◌+◌, leb, ◌*◌, ◌==◌, ltb, if◌then◌else◌, with_some, Option, List, ℕ, suc, none, some, [],
  ◌∷◌,
}

-- The loop of both UTF-8 length functions: the first byte of a sequence says how far to go.
unfoldable pub count_sequences : List ℕ → Option ℕ
count_sequences [] = none
count_sequences (a ∷ []) = if a == 0 then some 0 else none
count_sequences (a ∷ b ∷ []) =
    let one = count_sequences (b ∷ []) in
    if a == 0
    then some 0
    else if leb a 0x7f
    then with_some one (λ n. some (suc n % dword))
    else none
count_sequences (a ∷ b ∷ c ∷ mem) =
    let one = count_sequences (b ∷ c ∷ mem) in
    let two = count_sequences (c ∷ mem) in
    let three = count_sequences mem in
    if a == 0
    then some 0
    else with_some (if leb a 0x7f then one else if leb a 0xdf then two else three)
        (λ n. some (suc n % dword))

-- A text of n sequences needs n units and a terminator, and an empty one nothing.
abbrev pub units_size : ℕ → ℕ
units_size n = if ltb 0 n then (n * 2 % dword + 2) % dword else 0

unfoldable pub utf8_to_utf16le_len : Option (List ℕ) → Option ℕ
unfolding count_sequences
utf8_to_utf16le_len none = some 0
utf8_to_utf16le_len (some mem) = with_some (count_sequences mem) (λ n. some (units_size n))

unfoldable pub utf8_to_utf16be_len : Option (List ℕ) → Option ℕ
unfolding count_sequences
utf8_to_utf16be_len none = some 0
utf8_to_utf16be_len (some mem) = with_some (count_sequences mem) (λ n. some (units_size n))

-- The loop of the two functions between the byte orders of UTF-16.
unfoldable pub count_units : List ℕ → Option ℕ
count_units [] = none
count_units (u ∷ mem) =
    let rest = count_units mem in
    if u == 0 then some 0 else with_some rest (λ n. some (suc n % dword))

unfoldable pub utf16le_to_utf16be_len : Option (List ℕ) → Option ℕ
unfolding count_units
utf16le_to_utf16be_len none = some 0
utf16le_to_utf16be_len (some mem) = with_some (count_units mem) (λ n. some ((n * 2 + 2) % dword))

unfoldable pub utf16be_to_utf16le_len : Option (List ℕ) → Option ℕ
unfolding count_units
utf16be_to_utf16le_len none = some 0
utf16be_to_utf16le_len (some mem) = with_some (count_units mem) (λ n. some ((n * 2 + 2) % dword))

-- How many bytes of UTF-8 a unit takes.
abbrev pub bytes_of_unit : ℕ → ℕ
bytes_of_unit u = if ltb u 128 then 1 else if ltb u 0x800 then 2 else 3

-- The loop of the UTF-16 length functions. `order` is how the function reads a unit.
unfoldable pub count_bytes : (ℕ → ℕ) → List ℕ → Option ℕ
count_bytes order [] = none
count_bytes order (x ∷ mem) =
    let rest = count_bytes order mem in
    if order x == 0
    then some 0
    else with_some rest (λ n. some ((bytes_of_unit (order x) + n) % dword))

unfoldable pub utf16le_to_utf8_len : Option (List ℕ) → Option ℕ
unfolding count_bytes
utf16le_to_utf8_len none = some 0
utf16le_to_utf8_len (some mem) = count_bytes (λ u. u) mem

unfoldable pub utf16be_to_utf8_len : Option (List ℕ) → Option ℕ
unfolding count_bytes
utf16be_to_utf8_len none = some 0
utf16be_to_utf8_len (some mem) = count_bytes swap_bytes mem
