-- ===== src/Language/Lengths.antt =====
-- The length functions and the copies of language.c agree, up to the wrap of the lengths.
use workqueue.Platform.Codes.{dword}
use workqueue.Language.Widths.{count_sequences, bytes_of_unit, count_bytes}
use workqueue.Language.Copies.{
  high_of_three, low_of_three, high_of_two, low_of_two, decode, encode, encode_unit,
}
use workqueue.Prelude.{
  ◌≤◌, ◌%◌, leb, ◌==◌, Bool-cases, length-append, ◌+◌, arith, ◌++◌, ◌*◌, with_some, ◌≡◌, List,
  length, ℕ, Option, suc, refl, none, some, inl, inr, [], ◌∷◌,
}

abbrev pub measure : Option (List ℕ) → Option ℕ
measure out = with_some out (λ bytes. some (length bytes % dword))

module _ (put : ℕ → ℕ → List ℕ) (pair : (low high : ℕ) → length (put low high) ≡ 2) where
  length-put : (low high : ℕ) (out : List ℕ) → length (put low high ++ out) ≡ suc (suc (length out))
  length-put low high out = omega (arith, length-append (put low high) out, pair low high)

  measured_lem :
      (low high : ℕ) (o : Option (List ℕ)) (n : Option ℕ)
      → measure o ≡ with_some n (λ k. some ((k * 2 + 2) % dword))
      → measure (with_some o (λ out. some (put low high ++ out)))
        ≡ with_some (with_some n (λ k. some (suc k % dword))) (λ k. some ((k * 2 + 2) % dword))
  measured_lem low high none none h = refl
  measured_lem low high none (some k) h = cc
  measured_lem low high (some out) none h = cc
  measured_lem low high (some out) (some k) h = ground (arith, length-put low high out)

  -- A UTF-8 copy writes two bytes for each sequence that was counted, and two more, up to the
  -- wrap of the count.
  pub decode-measure :
      (mem : List ℕ)
      → measure (decode put mem) ≡ with_some (count_sequences mem) (λ n. some ((n * 2 + 2) % dword))
  unfolding decode count_sequences
  decode-measure [] = refl
  decode-measure (a ∷ []) = ground arith
  decode-measure (a ∷ b ∷ []) = ground (
    arith,
    measured_lem a 0 (decode put (b ∷ [])) (count_sequences (b ∷ [])) (decode-measure (b ∷ [])),
  )
  decode-measure (a ∷ b ∷ c ∷ mem) =
      let one = measured_lem a 0 _ _ (decode-measure (b ∷ c ∷ mem)) in
      let two = measured_lem (low_of_two a b) (high_of_two a) _ _ (decode-measure (c ∷ mem)) in
      let three = measured_lem (low_of_three b c) (high_of_three a b) _ _ (decode-measure mem) in
      elim (Bool-cases (a == 0)) [
        | inl e ↦ rw e
        | inr e ↦ rw e (elim (Bool-cases (leb a 0x7f)) [
          | inl e1 ↦ rw e1 one
          | inr e1 ↦
              rw e1 (elim (Bool-cases (leb a 0xdf)) [ inl e2 ↦ rw e2 two | inr e2 ↦ rw e2 three ])
        ])
      ]

length-encode_unit : (u : ℕ) → length (encode_unit u) ≡ bytes_of_unit u
unfolding encode_unit
length-encode_unit u = ground arith

-- A UTF-16 copy to UTF-8 writes as many bytes as were counted, up to the wrap of the
-- count.
pub encode-measure :
    (order : ℕ → ℕ) (mem : List ℕ) → measure (encode order mem) ≡ count_bytes order mem
unfolding encode count_bytes
encode-measure order [] = refl
encode-measure order (x ∷ mem) = elim (Bool-cases (order x == 0)) [
  | inl e ↦ rw e
  | inr e ↦ rw e (grow (encode order mem) (count_bytes order mem) (encode-measure order mem))
]
  where
    grow :
        (o : Option (List ℕ)) (n : Option ℕ)
        → measure o ≡ n
        → measure (with_some o (λ out. some (encode_unit (order x) ++ out)))
          ≡ with_some n (λ k. some ((bytes_of_unit (order x) + k) % dword))
    grow none none h = refl
    grow none (some k) h = cc
    grow (some out) none h = cc
    grow (some out) (some k) h =
        ground (arith, length-append (encode_unit (order x)) out, length-encode_unit (order x))

-- What a copy writes, if it ends, is no longer than this.
abbrev pub AtMost : ℕ → Option (List ℕ) → Type 0
AtMost n none = Unit {0}
AtMost n (some out) = length out ≤ n

AtMost-put :
    (word : List ℕ) (n k : ℕ) (o : Option (List ℕ))
    → AtMost k o
    → length word + k ≤ n
    → AtMost n (with_some o (λ out. some (word ++ out)))
AtMost-put word n k none a small = tt
AtMost-put word n k (some out) a small = omega (arith, length-append word out)

module _ (put : ℕ → ℕ → List ℕ) (pair : (low high : ℕ) → length (put low high) ≡ 2) where
  put_one :
      (low high n k : ℕ) (o : Option (List ℕ))
      → AtMost k o
      → 2 + k ≤ n
      → AtMost n (with_some o (λ out. some (put low high ++ out)))
  put_one low high n k o a small = AtMost-put (put low high) n k o a (omega (arith, pair low high))

  -- A UTF-8 copy writes no more than two bytes for each byte that it may read.
  pub decode-AtMost : (mem : List ℕ) → AtMost (2 * length mem) (decode put mem)
  unfolding decode
  decode-AtMost [] = tt
  decode-AtMost (a ∷ []) = ground arith
  decode-AtMost (a ∷ b ∷ []) = elim (Bool-cases (a == 0)) [
    | inl e ↦ rw e (omega arith)
    | inr e ↦ rw e (elim (Bool-cases (leb a 0x7f)) [
      | inl e1 ↦
          rw e1 (put_one a 0 _ _ (decode put (b ∷ [])) (decode-AtMost (b ∷ [])) (omega arith))
      | inr e1 ↦ rw e1 tt
    ])
  ]
  decode-AtMost (a ∷ b ∷ c ∷ mem) =
      let one =
        put_one a 0 (2 * length (a ∷ b ∷ c ∷ mem)) _ _ (decode-AtMost (b ∷ c ∷ mem))
          (omega arith) in
      let two =
        put_one (low_of_two a b) (high_of_two a) (2 * length (a ∷ b ∷ c ∷ mem)) _ _
          (decode-AtMost (c ∷ mem)) (omega arith) in
      let three =
        put_one (low_of_three b c) (high_of_three a b) (2 * length (a ∷ b ∷ c ∷ mem)) _ _
          (decode-AtMost mem) (omega arith) in
      elim (Bool-cases (a == 0)) [
        | inl e ↦ rw e (omega arith)
        | inr e ↦ rw e (elim (Bool-cases (leb a 0x7f)) [
          | inl e1 ↦ rw e1 one
          | inr e1 ↦
              rw e1 (elim (Bool-cases (leb a 0xdf)) [ inl e2 ↦ rw e2 two | inr e2 ↦ rw e2 three ])
        ])
      ]

pub encode_unit-small : (u : ℕ) → length (encode_unit u) ≤ 3
unfolding encode_unit
encode_unit-small u = ground arith

-- A UTF-16 copy to UTF-8 writes no more than three bytes for each unit that it may read.
pub encode-AtMost : (order : ℕ → ℕ) (mem : List ℕ) → AtMost (3 * length mem) (encode order mem)
unfolding encode
encode-AtMost order [] = tt
encode-AtMost order (x ∷ mem) = elim (Bool-cases (order x == 0)) [
  | inl e ↦ rw e (omega arith)
  | inr e ↦ rw e (
      AtMost-put (encode_unit (order x)) (3 * length (x ∷ mem)) (3 * length mem) (encode order mem)
        (encode-AtMost order mem) (omega (arith, encode_unit-small (order x))))
]
