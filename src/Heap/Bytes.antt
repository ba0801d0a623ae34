-- ===== src/Heap/Bytes.antt =====
-- Bytes of memory, and the words of four bytes, low byte first, that Heap.c keeps in them.
use workqueue.Prelude.{
  ltb, ◌∙◌, length, ◌&&◌, ◌/◌, ◌*◌, ◌==◌, ◌⊎◌, leb, ◌≡◌, arith, ◌%◌, if◌then◌else◌, ◌<◌, ◌+◌, ◌≤◌,
  List, ℕ, refl, inl, inr, [], ◌∷◌,
}

abbrev pub Bytes : Type 0
Bytes = ℕ → ℕ

-- `*(unsigned *)p`
unfoldable pub word_at : Bytes → ℕ → ℕ
word_at m p = m p + 256 * m (p + 1) + 65536 * m (p + 2) + 16777216 * m (p + 3)

-- `*(unsigned *)p = v`
unfoldable pub put_word : Bytes → ℕ → ℕ → Bytes
put_word m p v q =
    if q == p
    then v % 256
    else if q == p + 1
    then v / 256 % 256
    else if q == p + 2
    then v / 65536 % 256
    else if q == p + 3
    then v / 16777216 % 256
    else m q

unfoldable pub put_words : Bytes → ℕ → List ℕ → Bytes
put_words m p [] = m
put_words m p (v ∷ vs) = put_words (put_word m p v) (p + 4) vs

-- `memset(p, 0, n)`
unfoldable pub clear : Bytes → ℕ → ℕ → Bytes
clear m p n q = if leb p q && ltb q (p + n) then 0 else m q

-- The bytes from a up to b are the same in both.
abbrev pub SameFrom : ℕ → ℕ → Bytes → Bytes → Type 0
SameFrom a b m m' = (q : ℕ) → a ≤ q → q < b → m' q ≡ m q

-- All bytes outside of those from a up to b are the same in both.
abbrev pub SameBut : ℕ → ℕ → Bytes → Bytes → Type 0
SameBut a b m m' = (q : ℕ) → (q < a) ⊎ (b ≤ q) → m' q ≡ m q

pub put_word-SameBut : (m : Bytes) (p v : ℕ) → SameBut p (p + 4) m (put_word m p v)
unfolding put_word
put_word-SameBut m p v q out = ground arith

pub clear-SameBut : (m : Bytes) (p n : ℕ) → SameBut p (p + n) m (clear m p n)
unfolding clear
clear-SameBut m p n q (inl under) = ground arith
clear-SameBut m p n q (inr over) = ground arith

pub clear_zero : (m : Bytes) (p n q : ℕ) → p ≤ q → q < p + n → clear m p n q ≡ 0
unfolding clear
clear_zero m p n q from to = ground arith

pub word_at-same :
    (m m' : Bytes) (a b p : ℕ) → SameFrom a b m m' → a ≤ p → p + 4 ≤ b → word_at m' p ≡ word_at m p
unfolding word_at
word_at-same m m' a b p same from to =
    rw
      (
        same p from (omega arith),
        same (p + 1) (omega arith) (omega arith),
        same (p + 2) (omega arith) (omega arith),
        same (p + 3) (omega arith) (omega arith),
      )
      refl

pub word_at-other :
    (m m' : Bytes) (a b p : ℕ)
    → SameBut a b m m'
    → (p + 4 ≤ a) ⊎ (b ≤ p)
    → word_at m' p ≡ word_at m p
word_at-other m m' a b p same (inl under) =
    word_at-same m m' p (p + 4) p (λ q f t. same q (inl (omega arith))) (omega arith) (omega arith)
word_at-other m m' a b p same (inr over) =
    word_at-same m m' p (p + 4) p (λ q f t. same q (inr (omega arith))) (omega arith) (omega arith)

bytes_of :
    (v : ℕ)
    → v < 4294967296
    → v % 256 + 256 * (v / 256 % 256) + 65536 * (v / 65536 % 256) + 16777216 * (v / 16777216 % 256)
      ≡ v
bytes_of v small = omega arith

pub word_at-put_word : (m : Bytes) (p v : ℕ) → v < 4294967296 → word_at (put_word m p v) p ≡ v
unfolding word_at put_word
word_at-put_word m p v small =
    let b0 : put_word m p v p ≡ v % 256 = ground arith in
    let b1 : put_word m p v (p + 1) ≡ v / 256 % 256 = ground arith in
    let b2 : put_word m p v (p + 2) ≡ v / 65536 % 256 = ground arith in
    let b3 : put_word m p v (p + 3) ≡ v / 16777216 % 256 = ground arith in
    rw (b0, b1, b2, b3) (bytes_of v small)

pub put_words-SameBut :
    (m : Bytes) (p : ℕ) (vs : List ℕ) → SameBut p (p + 4 * length vs) m (put_words m p vs)
unfolding put_words
put_words-SameBut m p [] q out = refl
put_words-SameBut m p (v ∷ vs) q (inl under) =
    put_words-SameBut (put_word m p v) (p + 4) vs q (inl (omega arith))
    ∙ put_word-SameBut m p v q (inl under)
put_words-SameBut m p (v ∷ vs) q (inr over) =
    put_words-SameBut (put_word m p v) (p + 4) vs q (inr (omega arith))
    ∙ put_word-SameBut m p v q (inr (omega arith))
