-- ===== src/Language/Bounds.antt =====
-- No copy of `_lan_transcode` writes behind the block whose length it computes.
use workqueue.Platform.Codes.{dword}
use workqueue.Language.Bits.{swap_bytes}
use workqueue.Language.Transcode.{
  utf16be_to_utf16le, utf16le_to_utf16be, utf16be_to_utf8, utf16le_to_utf8, utf8_to_utf16be,
  utf8_to_utf16le, transcode_require_length, transcode, broken, transcode_with, utf8, utf16le,
  utf16be,
}
use workqueue.Language.Widths.{count_bytes, count_sequences, units_size}
use workqueue.Language.Lengths.{
  encode-AtMost, decode-AtMost, AtMost, encode-measure, decode-measure, measure,
}
use workqueue.Language.Copies.{refused, encode, big, little, decode, copied}
use workqueue.Language.Transcode.{Lan}
use workqueue.Prelude.{
  ◌%◌, ◌<◌, refl, ◌+◌, ◌*◌, with_some, length, arith, ◌≡◌, ◌≢◌, Bool, ℕ, List, Option, none, some,
}

-- The memory that a text lies in, which bounds its length: less than 2^30 bytes or units.
abbrev pub IsSmall : Option (List ℕ) → Type 0
IsSmall none = Unit {0}
IsSmall (some mem) = length mem < 0x4000_0000

-- A block of the size that was computed takes what the copy writes.
units_safe :
    (granted : Bool) (c : Option ℕ) (o : Option (List ℕ)) (bound : ℕ) {n : ℕ}
    → measure o ≡ with_some c (λ k. some ((k * 2 + 2) % dword))
    → AtMost bound o
    → bound < dword
    → with_some c (λ k. some (units_size k)) ≡ some n
    → transcode_with (with_some c (λ k. some (units_size k))) 1 granted (copied o) ≢ broken
units_safe granted none o bound m a small e = cc
units_safe granted (some k) none bound m a small e = cc
units_safe granted (some k) (some bytes) bound m a small e = ground arith

bytes_safe :
    (granted : Bool) (c : Option ℕ) (o : Option (List ℕ)) (bound : ℕ) {n : ℕ}
    → measure o ≡ c
    → AtMost bound o
    → bound < dword
    → c ≡ some n
    → transcode_with c 1 granted (copied o) ≢ broken
bytes_safe granted none o bound m a small e = cc
bytes_safe granted (some k) none bound m a small e = cc
bytes_safe granted (some k) (some bytes) bound m a small e = ground arith

refused_safe :
    (granted : Bool) (c : Option ℕ) {n : ℕ}
    → c ≡ some n
    → transcode_with c 2 granted refused ≢ broken
refused_safe granted none e = cc
refused_safe granted (some k) e = ground arith

module _ (granted : Bool) (mem : List ℕ) (small : length mem < 0x4000_0000) where
  from_utf8_safe :
      (put : ℕ → ℕ → List ℕ) {n : ℕ}
      → ((low high : ℕ) → length (put low high) ≡ 2)
      → with_some (count_sequences mem) (λ k. some (units_size k)) ≡ some n
      → transcode_with
          (with_some (count_sequences mem) (λ k. some (units_size k)))
          1
          granted
          (copied (decode put mem))
        ≢ broken
  from_utf8_safe put pair e =
      units_safe granted (count_sequences mem) (decode put mem) (2 * length mem)
        (decode-measure put pair mem) (decode-AtMost put pair mem) (omega arith) e

  to_utf8_safe :
      (order : ℕ → ℕ) {n : ℕ}
      → count_bytes order mem ≡ some n
      → transcode_with (count_bytes order mem) 1 granted (copied (encode order mem)) ≢ broken
  to_utf8_safe order e =
      bytes_safe granted (count_bytes order mem) (encode order mem) (3 * length mem)
        (encode-measure order mem) (encode-AtMost order mem) (omega arith) e

-- Where the length that a text needs can be read, and the text lies in memory of less than 2^30
-- bytes or units, so that no length wraps, `_lan_transcode` neither reads nor writes where it
-- must not: the block that it allocates holds all that the copy writes.
pub transcode_safe :
    (granted : Bool) (base : Option (List ℕ)) (from into : Lan) {n : ℕ}
    → IsSmall base
    → transcode_require_length base from into ≡ some n
    → transcode granted base from into ≢ broken
unfolding transcode transcode_require_length utf8_to_utf16le utf8_to_utf16be utf16le_to_utf8
    utf16be_to_utf8 utf16le_to_utf16be utf16be_to_utf16le
transcode_safe granted base utf8 utf8 s e = ground arith
transcode_safe granted none utf8 utf16le s e = ground arith
transcode_safe granted (some mem) utf8 utf16le s e =
    from_utf8_safe granted mem s little (λ low high. refl) e
transcode_safe granted none utf8 utf16be s e = ground arith
transcode_safe granted (some mem) utf8 utf16be s e =
    from_utf8_safe granted mem s big (λ low high. refl) e
transcode_safe granted none utf16le utf8 s e = ground arith
transcode_safe granted (some mem) utf16le utf8 s e = to_utf8_safe granted mem s (λ u. u) e
transcode_safe granted base utf16le utf16le s e = ground arith
transcode_safe granted none utf16le utf16be s e = ground arith
transcode_safe granted (some mem) utf16le utf16be s e = refused_safe granted _ e
transcode_safe granted none utf16be utf8 s e = ground arith
transcode_safe granted (some mem) utf16be utf8 s e = to_utf8_safe granted mem s swap_bytes e
transcode_safe granted none utf16be utf16le s e = ground arith
transcode_safe granted (some mem) utf16be utf16le s e = refused_safe granted _ e
transcode_safe granted base utf16be utf16be s e = ground arith
