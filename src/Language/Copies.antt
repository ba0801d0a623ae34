-- ===== src/Language/Copies.antt =====
-- The copy functions of language.c: what they write from the pointer `to` on.
use workqueue.Language.Bits.{swap_bytes}
use workqueue.Language.Widths.{
  utf8_to_utf16be_len, utf8_to_utf16le_len, utf16be_to_utf8_len, utf16le_to_utf8_len,
  utf16be_to_utf16le_len, utf16le_to_utf16be_len,
}
use workqueue.Prelude.{
  ◌++◌, with_some, leb, ◌/◌, ltb, ◌*◌, ◌==◌, Bool, if◌then◌else◌, bit_and, bit_or, Option, List, ℕ,
  none, some, true, false, [], ◌∷◌,
}

-- FALSE; TRUE with the bytes, or the 16-bit units, that were written; or a read behind the text,
-- or through NULL.
pub data Copied : Type 0 where
  refused : Copied
  wrote : List ℕ → Copied
  stray : Copied

abbrev pub copied : Option (List ℕ) → Copied
copied none = stray
copied (some out) = wrote out

-- The test of `to_len`, which 0 switches off, and the copy behind it.
abbrev pub fits_or_refused : Option ℕ → ℕ → Copied → Copied
fits_or_refused none to_len copy = stray
fits_or_refused (some n) to_len copy = if n == to_len then copy else refused

abbrev pub if_fits : Option ℕ → ℕ → Copied → Copied
if_fits len to_len copy = if to_len == 0 then copy else fits_or_refused len to_len copy

-- Two bytes `fbyte sbyte`, and three bytes `fbyte sbyte tbyte`, as the low and high byte of a unit.
unfoldable pub low_of_two : ℕ → ℕ → ℕ
low_of_two fbyte sbyte = bit_or (bit_and fbyte 0x03 * 64) (bit_and sbyte 0x3f)

unfoldable pub high_of_two : ℕ → ℕ
high_of_two fbyte = bit_and fbyte 0x1c / 4

unfoldable pub low_of_three : ℕ → ℕ → ℕ
low_of_three sbyte tbyte = bit_or (bit_and sbyte 0x03 * 64) (bit_and tbyte 0x3f)

-- `sbyte & 0x3c >> 2` is `sbyte & (0x3c >> 2)`.
unfoldable pub high_of_three : ℕ → ℕ → ℕ
high_of_three fbyte sbyte = bit_or (bit_and fbyte 0x0f * 16) (bit_and sbyte (0x3c / 4))

-- The loop of both UTF-8 copies. `put low high` is how a unit is written. At the end two zero
-- bytes are written.
unfoldable pub decode : (ℕ → ℕ → List ℕ) → List ℕ → Option (List ℕ)
decode put [] = none
decode put (a ∷ []) = if a == 0 then some (0 ∷ 0 ∷ []) else none
decode put (a ∷ b ∷ []) =
    let one = decode put (b ∷ []) in
    if a == 0
    then some (0 ∷ 0 ∷ [])
    else if leb a 0x7f
    then with_some one (λ out. some (put a 0 ++ out))
    else none
decode put (a ∷ b ∷ c ∷ mem) =
    let one = decode put (b ∷ c ∷ mem) in
    let two = decode put (c ∷ mem) in
    let three = decode put mem in
    if a == 0
    then some (0 ∷ 0 ∷ [])
    else if leb a 0x7f
    then with_some one (λ out. some (put a 0 ++ out))
    else if leb a 0xdf
    then with_some two (λ out. some (put (low_of_two a b) (high_of_two a) ++ out))
    else with_some three (λ out. some (put (low_of_three b c) (high_of_three a b) ++ out))

abbrev pub little : ℕ → ℕ → List ℕ
little low high = low ∷ high ∷ []

abbrev pub big : ℕ → ℕ → List ℕ
big low high = high ∷ low ∷ []

-- The arguments: the text, or NULL; whether `to` is a pointer; and its length.
unfoldable pub utf8_to_utf16le_copy : Option (List ℕ) → Bool → ℕ → Copied
unfolding decode utf8_to_utf16le_len
utf8_to_utf16le_copy none to to_len = refused
utf8_to_utf16le_copy (some mem) false to_len = refused
utf8_to_utf16le_copy (some mem) true to_len =
    if_fits (utf8_to_utf16le_len (some mem)) to_len (copied (decode little mem))

unfoldable pub utf8_to_utf16be_copy : Option (List ℕ) → Bool → ℕ → Copied
unfolding decode utf8_to_utf16be_len
utf8_to_utf16be_copy none to to_len = refused
utf8_to_utf16be_copy (some mem) false to_len = refused
utf8_to_utf16be_copy (some mem) true to_len =
    if_fits (utf8_to_utf16be_len (some mem)) to_len (copied (decode big mem))

-- The test is `!_utf16le || _utf16be`: a pointer `to` is refused, and NULL is written through.
unfoldable pub utf16le_to_utf16be_copy : Option (List ℕ) → Bool → ℕ → Copied
unfolding utf16le_to_utf16be_len
utf16le_to_utf16be_copy none to to_len = refused
utf16le_to_utf16be_copy (some mem) true to_len = refused
utf16le_to_utf16be_copy (some mem) false to_len =
    if_fits (utf16le_to_utf16be_len (some mem)) to_len stray

-- The same test, but here `_utf16le` is `to` and `_utf16be` the text.
unfoldable pub utf16be_to_utf16le_copy : Option (List ℕ) → Bool → ℕ → Copied
unfolding utf16be_to_utf16le_len
utf16be_to_utf16le_copy mem false to_len = refused
utf16be_to_utf16le_copy (some mem) true to_len = refused
utf16be_to_utf16le_copy none true to_len = if_fits (utf16be_to_utf16le_len none) to_len stray

-- What the UTF-16 copies write for a unit.
unfoldable pub encode_unit : ℕ → List ℕ
encode_unit u =
    if ltb u 128
    then u ∷ []
    else if ltb u 0x800
    then bit_or 0xc0 (u / 64) ∷ bit_or 0x80 (bit_and u 0x3f) ∷ []
    else bit_or 0xe0 (u / 4096)
      ∷ bit_or 0x80 (bit_and (u / 64) 0x3f)
      ∷ bit_or 0x80 (bit_and u 0x3f)
      ∷ []

-- The loop of the UTF-16 copies. `order` is how the function reads a unit. No terminator is written.
unfoldable pub encode : (ℕ → ℕ) → List ℕ → Option (List ℕ)
unfolding encode_unit
encode order [] = none
encode order (x ∷ mem) =
    let rest = encode order mem in
    if order x == 0 then some [] else with_some rest (λ out. some (encode_unit (order x) ++ out))

unfoldable pub utf16le_to_utf8_copy : Option (List ℕ) → Bool → ℕ → Copied
unfolding encode utf16le_to_utf8_len
utf16le_to_utf8_copy none to to_len = refused
utf16le_to_utf8_copy (some mem) false to_len = refused
utf16le_to_utf8_copy (some mem) true to_len =
    if_fits (utf16le_to_utf8_len (some mem)) to_len (copied (encode (λ u. u) mem))

unfoldable pub utf16be_to_utf8_copy : Option (List ℕ) → Bool → ℕ → Copied
unfolding encode utf16be_to_utf8_len
utf16be_to_utf8_copy none to to_len = refused
utf16be_to_utf8_copy (some mem) false to_len = refused
utf16be_to_utf8_copy (some mem) true to_len =
    if_fits (utf16be_to_utf8_len (some mem)) to_len (copied (encode swap_bytes mem))
