-- ===== src/Language/Hex.antt =====
-- The hexadecimal conversions of language.c. The last byte of a block is the first of its digits.
use workqueue.Platform.Codes.{dword}
use workqueue.Language.Copies.{wrote, refused, Copied}
use workqueue.Language.Transcode.{transcode_copy, utf8, utf16le, utf16be, Lan}
use workqueue.Prelude.{
  reverse, drop, length, ◌%◌, ◌+◌, ◌||◌, with_some, ◌/◌, ltb, ◌&&◌, ◌++◌, ◌==◌, ◌*◌, if◌then◌else◌,
  bit_or, bit_and, leb, Option, Bool, List, ℕ, zero, suc, none, some, true, false, [], ◌∷◌,
}

-- `__isascii_hex`
unfoldable pub is_hex : ℕ → Bool
is_hex x = (leb 0x30 x && leb x 0x39) || ((leb 0x41 x && leb x 0x46) || (leb 0x61 x && leb x 0x66))

-- The value of a digit, and of two.
unfoldable pub nibble : ℕ → ℕ
nibble x = if ltb 0x40 x then bit_and x 0x0f + 9 else bit_and x 0x0f

unfoldable pub byte_of : ℕ → ℕ → ℕ
unfolding nibble
byte_of high low = bit_or (bit_or 0 (nibble high * 16)) (nibble low)

-- The loop over the digits, which fills the dump from its end; `none` is an invalid digit.
unfoldable pub parse_pairs : ℕ → List ℕ → List ℕ → Option (List ℕ)
unfolding is_hex byte_of
parse_pairs zero mem dump = some dump
parse_pairs (suc n) (a ∷ b ∷ mem) dump =
    let rest = parse_pairs n mem (byte_of a b ∷ dump) in if is_hex a && is_hex b then rest else none
parse_pairs (suc n) mem dump = none

unfoldable pub strlen : List ℕ → Option ℕ
strlen [] = none
strlen (a ∷ mem) =
    let rest = strlen mem in if a == 0 then some 0 else with_some rest (λ n. some (suc n))

-- What is returned, with what `to` is filled with, if it is; or a read behind the text.
pub data Parsed : Type 0 where
  returned : Bool → Option (List ℕ) → Parsed
  astray : Parsed

abbrev pub parse_dump : Option (List ℕ) → Parsed
parse_dump none = returned false none
parse_dump (some dump) = returned true (some dump)

abbrev pub digits_of : ℕ → Bool → ℕ
digits_of to_len base_prefix =
    if base_prefix then (to_len * 2 % dword + 2) % dword else to_len * 2 % dword

-- `_lan_convert_string_to_hex` of a text of UTF-8.
unfoldable pub string_to_hex : Option (List ℕ) → Bool → ℕ → Bool → Parsed
unfolding strlen parse_pairs
string_to_hex none to to_len base_prefix = returned true none
string_to_hex (some mem) false to_len base_prefix = returned true none
string_to_hex (some mem) true to_len base_prefix =
    if to_len == 0 then returned true none else elim (strlen mem) [
      | none ↦ astray
      | some base_len ↦
          if base_len == digits_of to_len base_prefix
          then if base_len % 2 == 0
            then parse_dump (parse_pairs to_len (if base_prefix then drop 2 mem else mem) [])
            else returned false none
          else returned false none
    ]

-- The digit of a nibble, and the two of a byte.
unfoldable pub digit : ℕ → ℕ
digit n = if ltb 9 n then 0x57 + n else bit_or 0x30 n

unfoldable pub high_digit : ℕ → ℕ
unfolding digit
high_digit b = digit (bit_and b 0xf0 / 16)

unfoldable pub low_digit : ℕ → ℕ
unfolding digit
low_digit b = digit (bit_and b 0x0f)

-- The loop over the bytes from the last to the first.
unfoldable pub print_bytes : List ℕ → List ℕ
unfolding high_digit low_digit
print_bytes [] = []
print_bytes (b ∷ bs) = high_digit b ∷ low_digit b ∷ print_bytes bs

abbrev pub prefix_length : Bool → ℕ
prefix_length prefix = if prefix then 2 else 0

-- `_lan_convert_hex_to_string_require_length` of a block of `base_len` bytes.
unfoldable pub hex_to_string_require_length : ℕ → Lan → Bool → ℕ
hex_to_string_require_length base_len utf8 prefix =
    if ltb 0 base_len then (base_len * 2 + prefix_length prefix + 1) % dword else 0
hex_to_string_require_length base_len outlan prefix =
    if ltb 0 base_len then (base_len * 2 + prefix_length prefix + 1) * 2 % dword else 0

abbrev pub dump_of : List ℕ → Bool → List ℕ
dump_of base prefix =
    (if prefix then 0x30 ∷ 0x78 ∷ [] else []) ++ (print_bytes (reverse base) ++ 0 ∷ [])

-- `_lan_convert_hex_to_string_copy` to a pointer `to`: what is returned, with what is written.
-- For UTF-16 the transcoding starts at the terminator of the digits.
unfoldable pub hex_to_string_copy : List ℕ → ℕ → Lan → Bool → Bool × Copied
unfolding print_bytes hex_to_string_require_length
hex_to_string_copy base to_len outlan prefix =
    if length base == 0 || to_len == 0
    then (false, refused)
    else if to_len == hex_to_string_require_length (length base) outlan prefix
    then (
      true,
      elim outlan [
        | utf8 ↦ wrote (dump_of base prefix)
        | utf16le ↦ transcode_copy (some (0 ∷ [])) true to_len utf8 utf16le
        | utf16be ↦ transcode_copy (some (0 ∷ [])) true to_len utf8 utf16be
      ],
    )
    else (false, refused)
