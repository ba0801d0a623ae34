-- ===== src/Language/HexTrip.antt =====
-- Bytes printed in hexadecimal and parsed back.
use workqueue.Language.Widths.{count_sequences}
use workqueue.Platform.Codes.{dword}
use workqueue.Language.Copies.{refused, utf8_to_utf16be_copy, wrote, utf8_to_utf16le_copy}
use workqueue.Language.Transcode.{utf16be, utf16le, utf8, transcode_copy}
use workqueue.Language.Hex.{
  returned, prefix_length, dump_of, hex_to_string_require_length, hex_to_string_copy, string_to_hex,
  low_digit, high_digit, print_bytes, byte_of, parse_pairs, is_hex, strlen,
}
use workqueue.Prelude.{
  sym, ◌||◌, length-append, ◌%◌, reverse-reverse, ◌∙◌, ◌^◌, Bool, append_assoc, reverse, suc, ap,
  ◌&&◌, all_below-at, ◌==◌, ◌*◌, arith, ◌+◌, ◌≢◌, reverse_aux, ◌++◌, ◌<◌, length, ◌≡◌, All, List, ℕ,
  all_below, refl, some, true, false, [], ◌∷◌,
}

abbrev pub IsByte : ℕ → Type 0
IsByte b = b < 256

digit_table :
    all_below 256 (λ b.
      byte_of (high_digit b) (low_digit b) == b && (is_hex (high_digit b) && is_hex (low_digit b)))
    ≡ true
unfolding all_below byte_of high_digit low_digit is_hex
digit_table = refl

digits_lem :
    (b : ℕ)
    → IsByte b
    → (byte_of (high_digit b) (low_digit b) ≡ b)
      × (is_hex (high_digit b) ≡ true)
      × (is_hex (low_digit b) ≡ true)
digits_lem b h = ground (arith, all_below-at 256 _ b digit_table h)

is_hex-ne-zero : (x : ℕ) → is_hex x ≡ true → x ≢ 0
unfolding is_hex
is_hex-ne-zero x h = ground arith

parse-print :
    (bs rest dump : List ℕ)
    → All IsByte bs
    → parse_pairs (length bs) (print_bytes bs ++ rest) dump ≡ some (reverse_aux bs dump)
unfolding parse_pairs print_bytes
parse-print [] rest dump h = refl
parse-print (b ∷ bs) rest dump (h, hs) =
    let (value, high, low) = digits_lem b h in
    rw (high, low, value) (parse-print bs rest (b ∷ dump) hs)

strlen-print :
    (bs rest : List ℕ) → All IsByte bs → strlen (print_bytes bs ++ 0 ∷ rest) ≡ some (length bs * 2)
unfolding strlen print_bytes
strlen-print [] rest h = refl
strlen-print (b ∷ bs) rest (h, hs) =
    let (value, high, low) = digits_lem b h in
    let first : (high_digit b == 0) ≡ false = ground (arith, is_hex-ne-zero (high_digit b) high) in
    let second : (low_digit b == 0) ≡ false = ground (arith, is_hex-ne-zero (low_digit b) low) in
    rw (first, second, strlen-print bs rest hs) (ap (λ (n : ℕ). some n) (omega arith))

length-reverse_aux : (xs ys : List ℕ) → length (reverse_aux xs ys) ≡ length xs + length ys
length-reverse_aux [] ys = omega arith
length-reverse_aux (x ∷ xs) ys = omega (arith, length-reverse_aux xs (x ∷ ys))

All-reverse_aux : (xs ys : List ℕ) → All IsByte xs → All IsByte ys → All IsByte (reverse_aux xs ys)
All-reverse_aux [] ys h k = k
All-reverse_aux (x ∷ xs) ys (h, hs) k = All-reverse_aux xs (x ∷ ys) hs (h, k)

length-print : (bs : List ℕ) → length (print_bytes bs) ≡ length bs * 2
unfolding print_bytes
length-print [] = refl
length-print (b ∷ bs) = omega (arith, length-print bs)

module _ (bs : List ℕ) (rest : List ℕ) where
  abbrev turned : List ℕ
  turned = reverse bs

  length-turned : length turned ≡ length bs
  length-turned = omega (arith, length-reverse_aux bs [])

  length-dump_of :
      (prefix : Bool) → length (dump_of bs prefix) ≡ length bs * 2 + prefix_length prefix + 1
  length-dump_of true =
      omega (arith, length-append (print_bytes turned) (0 ∷ []), length-print turned, length-turned)
  length-dump_of false =
      omega (arith, length-append (print_bytes turned) (0 ∷ []), length-print turned, length-turned)

  parse_turned :
      All IsByte bs → parse_pairs (length bs) ((print_bytes turned ++ 0 ∷ []) ++ rest) [] ≡ some bs
  parse_turned h =
      rw (append_assoc, ← length-turned)
        (parse-print turned (0 ∷ rest) [] (All-reverse_aux bs [] h tt)
          ∙ ap (λ (l : List ℕ). some l) (reverse-reverse bs))

  strlen-turned :
      All IsByte bs → strlen ((print_bytes turned ++ 0 ∷ []) ++ rest) ≡ some (length bs * 2)
  strlen-turned h =
      rw append_assoc (
        strlen-print turned rest (All-reverse_aux bs [] h tt)
        ∙ ap (λ n. some (n * 2)) length-turned)

  parse_dump_of :
      (prefix : Bool)
      → length bs ≢ 0
      → length bs < 2 ^ 30
      → All IsByte bs
      → string_to_hex (some (dump_of bs prefix ++ rest)) true (length bs) prefix
        ≡ returned true (some bs)
  unfolding string_to_hex
  parse_dump_of false n small h =
      let first : (length bs == 0) ≡ false = ground arith in
      let count : (length bs * 2 == length bs * 2 % dword) ≡ true = ground arith in
      let even : (length bs * 2 % 2 == 0) ≡ true = ground arith in
      rw (first, strlen-turned h, count, even, parse_turned h)
  parse_dump_of true n small h =
      let first : (length bs == 0) ≡ false = ground arith in
      let count : (suc (suc (length bs * 2)) == (length bs * 2 % dword + 2) % dword) ≡ true =
        ground arith in
      let even : (suc (suc (length bs * 2)) % 2 == 0) ≡ true = ground arith in
      rw (first, strlen-turned h, count, even, parse_turned h)

prefix_length-small : (prefix : Bool) → prefix_length prefix < 3
prefix_length-small true = omega arith
prefix_length-small false = omega arith

copies_exactly :
    (bs : List ℕ) (prefix : Bool) (n : ℕ)
    → length bs ≢ 0
    → n ≢ 0
    → n ≡ hex_to_string_require_length (length bs) utf8 prefix
    → hex_to_string_copy bs n utf8 prefix ≡ (true, wrote (dump_of bs prefix))
unfolding hex_to_string_copy
copies_exactly bs prefix n some_bytes some_room exact =
    let first : (length bs == 0 || n == 0) ≡ false = ground arith in
    let same : (n == hex_to_string_require_length (length bs) utf8 prefix) ≡ true = ground arith in
    rw (first, same) refl

require_length-exact :
    (bs : List ℕ) (prefix : Bool)
    → length bs ≢ 0
    → length bs < 2 ^ 30
    → hex_to_string_require_length (length bs) utf8 prefix ≡ length (dump_of bs prefix)
unfolding hex_to_string_require_length
require_length-exact bs prefix n small =
    ground (arith, length-dump_of bs [] prefix, prefix_length-small prefix)

-- A block of bytes that is not empty and not too long for a `_dword` is printed in hexadecimal, with
-- a prefix or without, in exactly the length that is computed for it, and `string_to_hex` of that
-- text, whatever follows it, gives the block back.
pub hex_round_trip :
    (bs rest : List ℕ) (prefix : Bool)
    → length bs ≢ 0
    → length bs < 2 ^ 30
    → All IsByte bs
    → let n = hex_to_string_require_length (length bs) utf8 prefix in
      (hex_to_string_copy bs n utf8 prefix ≡ (true, wrote (dump_of bs prefix)))
      × (length (dump_of bs prefix) ≡ n)
      × (string_to_hex (some (dump_of bs prefix ++ rest)) true (length bs) prefix
          ≡ returned true (some bs))
hex_round_trip bs rest prefix n small h =
    let exact = require_length-exact bs prefix n small in
    (
      copies_exactly bs prefix _ n (ground (arith, exact, length-dump_of bs [] prefix)) refl,
      sym exact,
      parse_dump_of bs rest prefix n small h,
    )

-- Asked for UTF-16, and given the length that is computed for it, `hex_to_string_copy` reports
-- success and has written nothing, for every block.
pub hex_to_utf16_writes_nothing :
    (bs : List ℕ) (prefix : Bool)
    → length bs ≢ 0
    → length bs < 2 ^ 30
    → (hex_to_string_copy bs
          (hex_to_string_require_length (length bs) utf16le prefix)
          utf16le
          prefix
        ≡ (true, refused))
      × (hex_to_string_copy bs
            (hex_to_string_require_length (length bs) utf16be prefix)
            utf16be
            prefix
          ≡ (true, refused))
unfolding hex_to_string_copy hex_to_string_require_length transcode_copy utf8_to_utf16le_copy
    utf8_to_utf16be_copy count_sequences
hex_to_utf16_writes_nothing bs prefix n small = (ground arith, ground arith)
