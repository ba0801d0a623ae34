-- ===== src/Language/Bits.antt =====
-- The masks and shifts of language.c as arithmetic, checked on every byte or 16-bit unit.
use workqueue.Prelude.{
  ◌&&◌, ◌==◌, ◌∙◌, sym, subst, ap₂, all_below-at, ==_iff, arith, ◌/◌, ◌+◌, ◌%◌, bit_and, ◌≡◌, ◌*◌,
  bit_or, ◌<◌, ℕ, all_below, refl, true,
}

abbrev pub unit_mod : ℕ
unit_mod = 0x10000

-- `((x & 0x00ff) << 8) | ((x & 0xff00) >> 8)` on an `unsigned short`
unfoldable pub swap_bytes : ℕ → ℕ
swap_bytes x = bit_or (bit_and x 0x00ff * 256) (bit_and x 0xff00 / 256)

low_six_table : all_below 0x10000 (λ x. bit_and x 0x3f == x % 64) ≡ true
unfolding all_below
low_six_table = refl

swap_table : all_below 0x10000 (λ x. swap_bytes x == x % 256 * 256 + x / 256) ≡ true
unfolding all_below swap_bytes
swap_table = refl

byte_table :
    all_below 256 (λ x.
      bit_and x 3 == x % 4
      && (bit_and x 0x0f == x % 16
          && (bit_and x 0x1c == x / 4 % 8 * 4
              && (bit_or (x / 64 * 64) (x % 64) == x && bit_or (x / 16 * 16) (x % 16) == x))))
    ≡ true
unfolding all_below
byte_table = refl

lead_table :
    all_below 64 (λ x.
      bit_or 0x80 x == 0x80 + x
      && (bit_or 0xc0 (x % 32) == 0xc0 + x % 32 && bit_or 0xe0 (x % 16) == 0xe0 + x % 16))
    ≡ true
unfolding all_below
lead_table = refl

pub low_six : (x : ℕ) → x < unit_mod → bit_and x 0x3f ≡ x % 64
low_six x h = (==_iff _ _).0 (all_below-at 0x10000 _ x low_six_table h)

pub swap_bytes_lem : (x : ℕ) → x < unit_mod → swap_bytes x ≡ x % 256 * 256 + x / 256
swap_bytes_lem x h = (==_iff _ _).0 (all_below-at 0x10000 _ x swap_table h)

pub byte_masks :
    (x : ℕ)
    → x < 256
    → (bit_and x 3 ≡ x % 4)
      × (bit_and x 0x0f ≡ x % 16)
      × (bit_and x 0x1c ≡ x / 4 % 8 * 4)
      × (bit_or (x / 64 * 64) (x % 64) ≡ x)
      × (bit_or (x / 16 * 16) (x % 16) ≡ x)
byte_masks x h = ground (arith, all_below-at 256 _ x byte_table h)

pub join_six : (a b : ℕ) → a < 4 → b < 64 → bit_or (a * 64) b ≡ a * 64 + b
join_six a b ha hb =
    let n = a * 64 + b in
    let high : n / 64 ≡ a = omega arith in
    let low : n % 64 ≡ b = omega arith in
    ap₂ (λ x y. bit_or (x * 64) y) (sym high) (sym low) ∙ (byte_masks n (omega arith)).3

pub join_four : (a b : ℕ) → a < 16 → b < 16 → bit_or (a * 16) b ≡ a * 16 + b
join_four a b ha hb =
    let n = a * 16 + b in
    let high : n / 16 ≡ a = omega arith in
    let low : n % 16 ≡ b = omega arith in
    ap₂ (λ x y. bit_or (x * 16) y) (sym high) (sym low) ∙ (byte_masks n (omega arith)).4

pub or_80 : (x : ℕ) → x < 64 → bit_or 0x80 x ≡ 0x80 + x
or_80 x h = ground (arith, all_below-at 64 _ x lead_table h)

pub or_c0 : (x : ℕ) → x < 32 → bit_or 0xc0 x ≡ 0xc0 + x
or_c0 x h =
    let e : x % 32 ≡ x = omega arith in
    subst (λ y. bit_or 0xc0 y ≡ 0xc0 + y) e
      (ground (arith, all_below-at 64 _ x lead_table (omega arith)))

pub or_e0 : (x : ℕ) → x < 16 → bit_or 0xe0 x ≡ 0xe0 + x
or_e0 x h =
    let e : x % 16 ≡ x = omega arith in
    subst (λ y. bit_or 0xe0 y ≡ 0xe0 + y) e
      (ground (arith, all_below-at 64 _ x lead_table (omega arith)))
