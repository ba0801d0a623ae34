-- ===== src/Language/Texts.antt =====
-- Whole texts through the transcoding functions of language.c.
use workqueue.Platform.Codes.{dword}
use workqueue.Language.Lengths.{encode_unit-small, encode-measure, decode-measure}
use workqueue.Language.Bits.{unit_mod}
use workqueue.Language.Widths.{count_units, units_size}
use workqueue.Language.Transcode.{
  freed, utf16be, utf8, utf16be_to_utf16le, utf16le_to_utf8, utf16le_to_utf16be, utf16le,
  utf8_to_utf16le, transcode, block, transcode_with,
}
use workqueue.Language.Copies.{wrote, little, encode_unit, encode, decode}
use workqueue.Language.RoundTrip.{
  encode_unit-short, decode-encode_unit, IsShort, stored, decoded, IsUnit, encoded,
}
use workqueue.Prelude.{
  Bool-cases, All-append, inl, inr, sym, ◌%◌, ◌↔◌, ◌∙◌, ap₂, ◌≤◌, ap, append-nil, ◌-◌, ltb, ◌/◌,
  append_assoc, ◌==◌, length-append, map, ◌+◌, arith, ◌++◌, ◌*◌, with_some, ◌≢◌, ◌≡◌, ◌<◌, length,
  All, List, ℕ, Option, refl, none, some, true, false, [], ◌∷◌,
}

decode-end : (put : ℕ → ℕ → List ℕ) (rest : List ℕ) → decode put (0 ∷ rest) ≡ some (0 ∷ 0 ∷ [])
unfolding decode
decode-end put [] = refl
decode-end put (a ∷ []) = refl
decode-end put (a ∷ b ∷ rest) = refl

decode-encoded :
    (put : ℕ → ℕ → List ℕ) (us rest : List ℕ)
    → All IsUnit us
    → decode put (encoded us ++ 0 ∷ rest) ≡ some (stored put (map decoded us) ++ 0 ∷ 0 ∷ [])
unfolding encoded stored
decode-encoded put [] rest h = decode-end put rest
decode-encoded put (u ∷ us) rest (h, hs) = rw (
  append_assoc,
  decode-encode_unit put u (encoded us ++ 0 ∷ rest) h,
  decode-encoded put us rest hs,
  append_assoc,
)

encode-encoded :
    (order : ℕ → ℕ) (xs rest : List ℕ)
    → order 0 ≡ 0
    → All (λ x. order x ≢ 0) xs
    → encode order (xs ++ 0 ∷ rest) ≡ some (encoded (map order xs))
unfolding encode encoded
encode-encoded order [] rest z h = rw z
encode-encoded order (x ∷ xs) rest z (n, h) =
    let more : (order x == 0) ≡ false = ground arith in rw (more, encode-encoded order xs rest z h)

-- A copy that fills the block that was computed for it.
block_lem :
    (len : Option ℕ) (out : List ℕ)
    → len ≡ some (length out)
    → length out ≢ 0
    → transcode_with len 1 true (wrote out) ≡ block out
block_lem len out e n =
    let some_bytes : (length out == 0) ≡ false = ground arith in
    let whole : length out / 1 ≡ length out = omega arith in
    let fits : ltb (length out) (length out) ≡ false = ground arith in
    let none_left : length out - length out ≡ 0 = omega arith in
    rw (e, some_bytes, whole, fits, none_left, append-nil)

units_block :
    (c : Option ℕ) (out : List ℕ)
    → some (length out % dword) ≡ with_some c (λ k. some ((k * 2 + 2) % dword))
    → 2 < length out
    → length out < dword
    → transcode_with (with_some c (λ k. some (units_size k))) 1 true (wrote out) ≡ block out
units_block none out e n small = cc
units_block (some k) out e n small =
    block_lem (some (units_size k)) out (ground arith) (omega arith)

length-encoded : (u : ℕ) (us : List ℕ) → length (encoded (u ∷ us)) ≢ 0
unfolding encoded encode_unit
length-encoded u us = ground arith

length-stored_all : (us : List ℕ) → length (stored little us) ≡ 2 * length us
unfolding stored
length-stored_all [] = refl
length-stored_all (u ∷ us) = omega (arith, length-stored_all us)

encoded-small : (us : List ℕ) → length (encoded us) ≤ 3 * length us
unfolding encoded
encoded-small [] = omega arith
encoded-small (u ∷ us) =
    omega (arith, length-append (encode_unit u) (encoded us), encode_unit-small u, encoded-small us)

length-map : (f : ℕ → ℕ) (us : List ℕ) → length (map f us) ≡ length us
length-map f [] = refl
length-map f (u ∷ us) = omega (arith, length-map f us)

length-stored : (u : ℕ) (us : List ℕ) → 2 < length (stored little (u ∷ us) ++ 0 ∷ 0 ∷ [])
unfolding stored
length-stored u us = ground (arith, length-append {A = ℕ} (stored little us) (0 ∷ 0 ∷ []))

-- What a short unit is decoded to.
map-decoded : (us : List ℕ) → All IsShort us → map decoded us ≡ us
map-decoded [] h = refl
map-decoded (u ∷ us) ((n, s), h) =
    let d : decoded u ≡ u = ground arith in ap₂ ◌∷◌ d (map-decoded us h)

short_units : (us : List ℕ) → All IsShort us → All IsUnit us
short_units [] h = tt
short_units (u ∷ us) ((n, s), h) = ((n, omega arith), short_units us h)

map-id : (us : List ℕ) → map (λ u. u) us ≡ us
map-id [] = refl
map-id (u ∷ us) = ap (λ (l : List ℕ). u ∷ l) (map-id us)

nonzero : (us : List ℕ) → All IsUnit us → All (λ u. u ≢ 0) us
nonzero [] h = tt
nonzero (u ∷ us) ((n, s), h) = (n, nonzero us h)

to_utf8 :
    (u : ℕ) (us rest : List ℕ)
    → All IsUnit (u ∷ us)
    → length (u ∷ us) < 0x4000_0000
    → transcode true (some (u ∷ us ++ 0 ∷ rest)) utf16le utf8 ≡ block (encoded (u ∷ us))
unfolding transcode utf16le_to_utf8
to_utf8 u us rest h small =
    let e = encode-encoded (λ x. x) (u ∷ us) rest refl (nonzero (u ∷ us) h) in
    let e' = e ∙ ap (λ l. some (encoded l)) (map-id (u ∷ us)) in
    let m = encode-measure (λ x. x) (u ∷ us ++ 0 ∷ rest) in
    let whole : length (encoded (u ∷ us)) % dword ≡ length (encoded (u ∷ us)) =
      omega (arith, encoded-small (u ∷ us)) in
    rw e'
      (block_lem _ (encoded (u ∷ us)) (sym m ∙ rw e' (λ i. some (whole i))) (length-encoded u us))

from_utf8 :
    (u : ℕ) (us rest : List ℕ)
    → All IsUnit (u ∷ us)
    → length (u ∷ us) < 0x4000_0000
    → transcode true (some (encoded (u ∷ us) ++ 0 ∷ rest)) utf8 utf16le
      ≡ block (stored little (map decoded (u ∷ us)) ++ 0 ∷ 0 ∷ [])
unfolding transcode utf8_to_utf16le
from_utf8 u us rest h small =
    let e = decode-encoded little (u ∷ us) rest h in
    let m = decode-measure little (λ low high. refl) (encoded (u ∷ us) ++ 0 ∷ rest) in
    rw e (
      units_block _ (stored little (map decoded (u ∷ us)) ++ 0 ∷ 0 ∷ []) (rw e at m)
        (length-stored (decoded u) (map decoded us))
        (omega (
          arith,
          length-append (stored little (map decoded (u ∷ us))) (0 ∷ 0 ∷ []),
          length-stored_all (map decoded (u ∷ us)),
          length-map decoded (u ∷ us),
        )))

encode_unit-nonzero : (u : ℕ) → IsUnit u → All (λ b. b ≢ 0) (encode_unit u)
encode_unit-nonzero u (n, h) = rw (encode_unit-short u h) (elim (Bool-cases (ltb u 128)) [
  | inl one ↦ rw one (n, tt)
  | inr more ↦ rw more (elim (Bool-cases (ltb u 0x800)) [
    | inl two ↦ rw two (omega arith)
    | inr three ↦ rw three (omega arith)
  ])
])

encoded-nonzero : (us : List ℕ) → All IsUnit us → All (λ b. b ≢ 0) (encoded us)
unfolding encoded
encoded-nonzero [] h = tt
encoded-nonzero (u ∷ us) (h, hs) =
    All-append (λ b. b ≢ 0) (encode_unit u) (encoded us) (encode_unit-nonzero u h)
      (encoded-nonzero us hs)

-- The bytes of a block as a little-endian machine reads them by units.
unfoldable pub units_in : List ℕ → List ℕ
units_in [] = []
units_in (low ∷ []) = []
units_in (low ∷ high ∷ bytes) = (low + high * 256) ∷ units_in bytes

units_in-stored : (us : List ℕ) → units_in (stored little us ++ 0 ∷ 0 ∷ []) ≡ us ++ 0 ∷ []
unfolding units_in stored
units_in-stored [] = refl
units_in-stored (u ∷ us) =
    let whole : u % 256 + u / 256 * 256 ≡ u = omega arith in ap₂ ◌∷◌ whole (units_in-stored us)

-- A text of UTF-8 that is not empty and has sequences of one or two bytes only, fewer than 2^30, is
-- taken to little-endian UTF-16 by `_lan_transcode`, into a block of its units and a terminator;
-- and this very block, read by units and with nothing behind it, is taken back by
-- `_lan_transcode` into a block of just the bytes that the text had in front of its terminator.
pub transcode_round_trip :
    (u : ℕ) (us rest : List ℕ)
    → All IsShort (u ∷ us)
    → length (u ∷ us) < 0x4000_0000
    → let wide = stored little (u ∷ us) ++ 0 ∷ 0 ∷ [] in
      (transcode true (some (encoded (u ∷ us) ++ 0 ∷ rest)) utf8 utf16le ≡ block wide)
      × (transcode true (some (units_in wide)) utf16le utf8 ≡ block (encoded (u ∷ us)))
transcode_round_trip u us rest h small =
    let wide = short_units (u ∷ us) h in
    (
      from_utf8 u us rest wide small
          ∙ ap (λ l. block (stored little l ++ 0 ∷ 0 ∷ [])) (map-decoded (u ∷ us) h),
      (λ i. transcode true (some (units_in-stored (u ∷ us) i)) utf16le utf8)
          ∙ to_utf8 u us [] wide small,
    )

-- A unit from 0x800 on comes back from UTF-8 exactly if its bits 8 to 11 are its bits 6 to 9.
pub three_bytes_iff :
    (u : ℕ) (rest : List ℕ)
    → 0x800 ≤ u
    → u < unit_mod
    → (transcode true (some (encoded (u ∷ []) ++ 0 ∷ rest)) utf8 utf16le
        ≡ block (stored little (u ∷ []) ++ 0 ∷ 0 ∷ []))
      ↔ (u / 256 % 16 ≡ u / 64 % 16)
unfolding stored
three_bytes_iff u rest h s =
    let e = from_utf8 u [] rest ((omega arith, s), tt) (omega arith) in
    (λ back. ground arith, λ same. e ∙ ground arith)

-- Between the byte orders of UTF-16 `_lan_transcode` never succeeds: for every text of less than
-- 2^30 units it returns the
-- address of a block that it has freed.
pub byte_order_freed :
    (mem : List ℕ) {n : ℕ}
    → count_units mem ≡ some n
    → n < 0x4000_0000
    → (transcode true (some mem) utf16le utf16be ≡ freed)
      × (transcode true (some mem) utf16be utf16le ≡ freed)
unfolding transcode utf16le_to_utf16be utf16be_to_utf16le
byte_order_freed mem {n} e small =
    let some_bytes : ((n * 2 + 2) % dword == 0) ≡ false = ground (arith, small) in
    (rw (e, some_bytes), rw (e, some_bytes))

-- The block of UTF-8 that `_lan_transcode` makes of a text of UTF-16 of less than 2^30 units is full to its last byte and
-- holds no zero byte: it is not terminated.
pub to_utf8_unterminated :
    (u : ℕ) (us rest : List ℕ)
    → All IsUnit (u ∷ us)
    → length (u ∷ us) < 0x4000_0000
    → (transcode true (some (u ∷ us ++ 0 ∷ rest)) utf16le utf8 ≡ block (encoded (u ∷ us)))
      × All (λ b. b ≢ 0) (encoded (u ∷ us))
to_utf8_unterminated u us rest h small = (to_utf8 u us rest h small, encoded-nonzero (u ∷ us) h)
