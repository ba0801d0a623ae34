-- ===== src/Platform/Run.antt =====
-- What a call does to a state of type S: it returns, it is left waiting in a lock, or it makes an
-- access that C leaves undefined.

pub data Run (S A : Type 0) : Type 0 where
  done : A → S → Run S A
  waiting : S → Run S A
  fault : Run S A

abbrev pub Cmd : Type 0 → Type 0 → Type 0
Cmd S A = S → Run S A

module _ {S : Type 0} where
  abbrev pub pure : {A : Type 0} → A → Cmd S A
  pure a s = done a s

  abbrev pub and_then : {A B : Type 0} → Run S A → (A → Cmd S B) → Run S B
  and_then (done a s) k = k a s
  and_then (waiting s) k = waiting s
  and_then fault k = fault

  infixl 5 ◌>>=◌ ◌>>◌
  abbrev pub ◌>>=◌ : {A B : Type 0} → Cmd S A → (A → Cmd S B) → Cmd S B
  m >>= k = λ s. and_then (m s) k

  abbrev pub ◌>>◌ : {A B : Type 0} → Cmd S A → Cmd S B → Cmd S B
  m >> n = m >>= λ _. n

-- The call returns, and what it returns and leaves has the property.
pub data Returns {S A : Type 0} (P : A → S → Type 0) : Run S A → Type 0 where
  returns : {a : A} {s : S} → P a s → Returns P (done a s)

module _ {S A : Type 0} {P : A → S → Type 0} where
  pub bind :
      {B : Type 0} {Q : B → S → Type 0} {r : Run S A} {k : A → Cmd S B}
      → Returns P r
      → ((a : A) (s : S) → P a s → Returns Q (k a s))
      → Returns Q (and_then r k)
  bind (returns p) next = next _ _ p

  pub mono :
      {Q : A → S → Type 0} {r : Run S A}
      → Returns P r
      → ((a : A) (s : S) → P a s → Q a s)
      → Returns Q r
  mono (returns p) weaken = returns (weaken _ _ p)

-- The call is left waiting, and the state that it leaves has the property.
pub data Waits {S A : Type 0} (P : S → Type 0) : Run S A → Type 0 where
  waits : {s : S} → P s → Waits P (waiting s)

pub bind-Waits :
    {S A B : Type 0} {P : A → S → Type 0} {Q : S → Type 0} {r : Run S A} {k : A → Cmd S B}
    → Returns P r
    → ((a : A) (s : S) → P a s → Waits Q (k a s))
    → Waits Q (and_then r k)
bind-Waits (returns p) next = next _ _ p
