-- ===== src/Language/Tests.antt =====
-- Texts and blocks on which the functions of language.c are run, and the theorems at them.
use workqueue.Language.Widths.{utf8_to_utf16le_len, count_sequences}
use workqueue.Language.RoundTrip.{stored}
use workqueue.Language.HexTrip.{hex_round_trip}
use workqueue.Language.Texts.{units_in, transcode_round_trip}
use workqueue.Language.RoundTrip.{encoded}
use workqueue.Language.Bounds.{transcode_safe}
use workqueue.Language.Transcode.{
  utf8_to_utf16le, transcode_require_length, transcode, utf8, utf16le, block, broken,
}
use workqueue.Language.Copies.{high_of_two, low_of_two, encode_unit, wrote}
use workqueue.Language.Hex.{
  hex_to_string_require_length, string_to_hex, dump_of, hex_to_string_copy, print_bytes, returned,
}
use workqueue.Prelude.{arith, ◌++◌, ◌≢◌, length, ◌≡◌, List, ℕ, [], ◌∷◌, refl, some, true}

-- "Aé" and a snowman, in UTF-8 with what stands behind the terminator.
abbrev utf8_text : List ℕ
utf8_text = 0x41 ∷ 0xc3 ∷ 0xa9 ∷ 0 ∷ 0x7f ∷ []

abbrev dump : List ℕ
dump = 0x1f ∷ 0xa0 ∷ 0x00 ∷ []

test_to_utf16le :
    transcode true (some utf8_text) utf8 utf16le ≡ block (0x41 ∷ 0x00 ∷ 0xe9 ∷ 0x00 ∷ 0 ∷ 0 ∷ [])
unfolding transcode utf8_to_utf16le low_of_two high_of_two
test_to_utf16le = refl

test_print : print_bytes (0x00 ∷ 0xa0 ∷ 0x1f ∷ []) ≡ 0x30 ∷ 0x30 ∷ 0x61 ∷ 0x30 ∷ 0x31 ∷ 0x66 ∷ []
unfolding print_bytes
test_print = refl

transcode_safe_example : transcode true (some utf8_text) utf8 utf16le ≢ broken
unfolding transcode_require_length count_sequences utf8_to_utf16le_len
transcode_safe_example =
    transcode_safe true (some utf8_text) utf8 utf16le {n = 6} (omega arith) refl

transcode_round_trip_example :
    (transcode true (some utf8_text) utf8 utf16le ≡ block (0x41 ∷ 0x00 ∷ 0xe9 ∷ 0x00 ∷ 0 ∷ 0 ∷ []))
    × (transcode true (some (0x41 ∷ 0xe9 ∷ 0 ∷ [])) utf16le utf8 ≡ block (0x41 ∷ 0xc3 ∷ 0xa9 ∷ []))
unfolding encoded stored encode_unit units_in
transcode_round_trip_example =
    transcode_round_trip 0x41 (0xe9 ∷ []) (0x7f ∷ [])
      (((λ z. ground arith), omega arith), (((λ z. ground arith), omega arith), tt)) (omega arith)

hex_round_trip_example :
    (hex_to_string_copy dump 9 utf8 true ≡ (true, wrote (dump_of dump true)))
    × (length (dump_of dump true) ≡ 9)
    × (string_to_hex (some (dump_of dump true ++ 0x7f ∷ [])) true 3 true
        ≡ returned true (some dump))
unfolding hex_to_string_require_length
hex_round_trip_example =
    hex_round_trip dump (0x7f ∷ []) true (omega arith) (omega arith)
      (omega arith, (omega arith, (omega arith, tt)))
