-- ===== src/Language/RoundTrip.antt =====
-- Text in UTF-16 taken to UTF-8 and back. Units from 0x800 on, of three bytes each, do not all
-- come back.
use workqueue.Language.Bits.{
  or_e0, join_four, or_c0, join_six, or_80, low_six, byte_masks, unit_mod,
}
use workqueue.Language.Copies.{
  decode, high_of_two, high_of_three, low_of_three, low_of_two, encode_unit,
}
use workqueue.Prelude.{
  ◌∙◌, Bool-cases, with_some, ◌≤◌, some, inl, inr, arith, ◌≡◌, ◌*◌, ◌/◌, ◌+◌, ltb, if◌then◌else◌,
  ◌≢◌, ◌++◌, ◌%◌, ◌<◌, ℕ, List, [], ◌∷◌,
}

-- A unit of a text: not the terminator, and 16 bits wide.
abbrev pub IsUnit : ℕ → Type 0
IsUnit u = (u ≢ 0) × (u < unit_mod)

-- A unit that takes one or two bytes.
abbrev pub IsShort : ℕ → Type 0
IsShort u = (u ≢ 0) × (u < 0x800)

-- The UTF-8 form of a text, and its form in the bytes of little-endian UTF-16.
unfoldable pub encoded : List ℕ → List ℕ
encoded [] = []
encoded (u ∷ us) = encode_unit u ++ encoded us

unfoldable pub stored : (ℕ → ℕ → List ℕ) → List ℕ → List ℕ
stored put [] = []
stored put (u ∷ us) = put (u % 256) (u / 256) ++ stored put us

-- What `decode` makes of the form of one unit.
abbrev pub decoded : ℕ → ℕ
decoded u = if ltb u 0x800 then u else u / 4096 * 4096 + u / 64 % 16 * 256 + u % 256

pub encode_unit-short :
    (u : ℕ)
    → u < unit_mod
    → encode_unit u ≡ (
        if ltb u 128
        then u ∷ []
        else if ltb u 0x800
        then (0xc0 + u / 64) ∷ (0x80 + u % 64) ∷ []
        else (0xe0 + u / 4096) ∷ (0x80 + u / 64 % 64) ∷ (0x80 + u % 64) ∷ [])
unfolding encode_unit
encode_unit-short u h = ground (
  arith,
  low_six u h,
  low_six (u / 64) (omega arith),
  or_80 (u % 64) (omega arith),
  or_80 (u / 64 % 64) (omega arith),
  or_c0 (u / 64),
  or_e0 (u / 4096),
)

two_lem :
    (u : ℕ)
    → u < 0x800
    → (low_of_two (0xc0 + u / 64) (0x80 + u % 64) ≡ u % 256)
      × (high_of_two (0xc0 + u / 64) ≡ u / 256)
unfolding low_of_two high_of_two
two_lem u h = ground (
  arith,
  byte_masks (0xc0 + u / 64) (omega arith),
  low_six (0x80 + u % 64) (omega arith),
  join_six (u / 64 % 4) (u % 64) (omega arith) (omega arith),
)

three_lem :
    (u : ℕ)
    → u < unit_mod
    → (low_of_three (0x80 + u / 64 % 64) (0x80 + u % 64) ≡ u % 256)
      × (high_of_three (0xe0 + u / 4096) (0x80 + u / 64 % 64) ≡ u / 4096 * 16 + u / 64 % 16)
unfolding low_of_three high_of_three
three_lem u h = ground (
  arith,
  byte_masks (0x80 + u / 64 % 64) (omega arith),
  byte_masks (0xe0 + u / 4096) (omega arith),
  low_six (0x80 + u % 64) (omega arith),
  join_six (u / 64 % 4) (u % 64) (omega arith) (omega arith),
  join_four (u / 4096) (u / 64 % 16) (omega arith) (omega arith),
)

module _ (put : ℕ → ℕ → List ℕ) where
  decode-one :
      (u : ℕ) (mem : List ℕ)
      → u ≢ 0
      → u < 128
      → decode put (u ∷ mem) ≡ with_some (decode put mem) (λ out. some (put u 0 ++ out))
  unfolding decode
  decode-one u [] n h = ground arith
  decode-one u (b ∷ []) n h = ground arith
  decode-one u (b ∷ c ∷ mem) n h = ground arith

  decode-two :
      (a b : ℕ) (mem : List ℕ)
      → 0x7f < a
      → a ≤ 0xdf
      → decode put (a ∷ b ∷ mem)
        ≡ with_some (decode put mem) (λ out. some (put (low_of_two a b) (high_of_two a) ++ out))
  unfolding decode
  decode-two a b [] n h = ground arith
  decode-two a b (c ∷ mem) n h = ground arith

  decode-three :
      (a b c : ℕ) (mem : List ℕ)
      → 0xdf < a
      → decode put (a ∷ b ∷ c ∷ mem)
        ≡ with_some
            (decode put mem)
            (λ out. some (put (low_of_three b c) (high_of_three a b) ++ out))
  unfolding decode
  decode-three a b c mem n = ground arith

  -- One unit is decoded from its form, up to four bits of a long one.
  pub decode-encode_unit :
      (u : ℕ) (mem : List ℕ)
      → IsUnit u
      → decode put (encode_unit u ++ mem)
        ≡ with_some (decode put mem) (λ out. some (put (decoded u % 256) (decoded u / 256) ++ out))
  decode-encode_unit u mem (n, h) = rw (encode_unit-short u h) (elim (Bool-cases (ltb u 128)) [
    | inl one ↦
        let low : decoded u % 256 ≡ u = ground arith in
        let high : decoded u / 256 ≡ 0 = ground arith in
        rw (low, high, one) (decode-one u mem n (ground arith))
    | inr more ↦ elim (Bool-cases (ltb u 0x800)) [
      | inl two ↦
          let (low, high) = two_lem u (ground arith) in
          let d : decoded u ≡ u = rw two in
          rw (more, two)
            (decode-two (0xc0 + u / 64) (0x80 + u % 64) mem (omega arith) (ground arith)
              ∙ rw (low, high))
      | inr three ↦
          let (low, high) = three_lem u h in
          let d : decoded u ≡ u / 4096 * 4096 + u / 64 % 16 * 256 + u % 256 = rw three in
          let dl : decoded u % 256 ≡ u % 256 = rw d (omega arith) in
          let dh : decoded u / 256 ≡ u / 4096 * 16 + u / 64 % 16 = rw d (omega arith) in
          rw (dl, dh, more, three)
            (decode-three (0xe0 + u / 4096) (0x80 + u / 64 % 64) (0x80 + u % 64) mem (omega arith)
              ∙ rw (low, high))
    ]
  ])
