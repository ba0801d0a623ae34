-- ===== src/Chains/Lists.antt =====
-- Searching, unlinking and clearing a list. A callback of the caller is a test of an address.
-- `while(current)` of `_list_find`: the element, or NULL.
use workqueue.Chains.Queues.{Holds}
use workqueue.Chains.Shape.{Runs-put, Runs, AreApart}
use workqueue.Chains.Store.{put_same, put_other, put, Chain, Store}
use workqueue.Prelude.{
  ◌⊎◌, ap, subst, sym, true, ◌∙◌, arith, ◌≡◌, ◌≢◌, ◌<◌, All, Bool-cases, with_some, length, List,
  ◌==◌, Bool, Option, if◌then◌else◌, ℕ, zero, suc, refl, none, some, false, inl, inr, [], ◌∷◌,
}

unfoldable pub find_in : ℕ → Store → (ℕ → Bool) → ℕ → Option ℕ
find_in zero h func p = none
find_in (suc fuel) h func p =
    let rest = find_in fuel h func (h p) in
    if p == 0 then some 0 else if func p then some p else rest

unfoldable pub list_find : ℕ → Chain → (ℕ → Bool) → Option ℕ
unfolding find_in
list_find fuel c func = find_in fuel c.links func c.head

-- The chain without `current`, behind `previous`, which may be NULL.
abbrev pub cut : Chain → ℕ → ℕ → Chain
cut c previous current =
    if previous == 0
    then record { head = c.links current; links = put c.links current 0 }
    else record { head = c.head; links = put (put c.links previous (c.links current)) current 0 }

unfoldable pub unlink_from : ℕ → Chain → (ℕ → Bool) → ℕ → ℕ → Option (ℕ × Chain)
unlink_from zero c func previous current = none
unlink_from (suc fuel) c func previous current =
    let rest = unlink_from fuel c func current (c.links current) in
    if current == 0
    then some (0, c)
    else if func current
    then some (current, cut c previous current)
    else rest

unfoldable pub list_unlink : ℕ → Chain → (ℕ → Bool) → Option (ℕ × Chain)
unfolding unlink_from
list_unlink fuel c func = unlink_from fuel c func 0 c.head

-- `_list_clear`: the elements that the callback is called on, in their order; the callback may leave
-- anything in the link of the element it is called on.
unfoldable pub clear_from : ℕ → (ℕ → ℕ) → Store → ℕ → ℕ → Option (List ℕ × Store)
clear_from zero spoil h current next = none
clear_from (suc fuel) spoil h current next =
    let spoiled = put h current (spoil current) in
    let rest = clear_from fuel spoil spoiled next (if next == 0 then 0 else spoiled next) in
    if current == 0 then some ([], h) else with_some rest (λ r. some (current ∷ r.0, r.1))

unfoldable pub list_clear : ℕ → (ℕ → ℕ) → Chain → Option (List ℕ × Chain)
unfolding clear_from
list_clear fuel spoil c =
    with_some (clear_from fuel spoil c.links c.head (if c.head == 0 then 0 else c.links c.head))
      (λ r. some (r.0, record { head = 0; links = r.1 }))

-- The first address that passes a test, or NULL, and the others.
unfoldable pub first_of : (ℕ → Bool) → List ℕ → ℕ
first_of func [] = 0
first_of func (x ∷ xs) = if func x then x else first_of func xs

unfoldable pub without : (ℕ → Bool) → List ℕ → List ℕ
without func [] = []
without func (x ∷ xs) = if func x then xs else x ∷ without func xs

find_in-Runs :
    (fuel : ℕ) (h : Store) (func : ℕ → Bool) (p : ℕ) (xs : List ℕ)
    → Runs h p xs
    → length xs < fuel
    → find_in fuel h func p ≡ some (first_of func xs)
unfolding Runs find_in first_of
find_in-Runs zero h func p xs r small = absurd (omega arith)
find_in-Runs (suc fuel) h func p [] r small = rw r refl
find_in-Runs (suc fuel) h func p (x ∷ xs) (at, nz, r) small =
    let here : (x == 0) ≡ false = ground arith in
    rw (at, here) (ground (arith, find_in-Runs fuel h func (h x) xs r (omega arith)))

pub All-without {κ} :
    (P : ℕ → Type κ) (func : ℕ → Bool) (xs : List ℕ) → All P xs → All P (without func xs)
unfolding without
All-without P func [] h = tt
All-without P func (x ∷ xs) (h, hs) = elim (Bool-cases (func x)) [
  | inl e ↦ rw e hs
  | inr e ↦ rw e (h, All-without P func xs hs)
]

pub AreApart-without : (func : ℕ → Bool) (xs : List ℕ) → AreApart xs → AreApart (without func xs)
unfolding without AreApart
AreApart-without func [] d = tt
AreApart-without func (x ∷ xs) (dx, d) = elim (Bool-cases (func x)) [
  | inl e ↦ rw e d
  | inr e ↦ rw e (All-without (λ y. y ≢ x) func xs dx, AreApart-without func xs d)
]

-- The loop of `_list_unlink` behind an element that it has passed.
record Unlinked (h : Store) (func : ℕ → Bool) (prev : ℕ) (ys : List ℕ) (h' : Store) : Type 0 where
  runs : Runs h' (h' prev) (without func ys)
  frame : (q : ℕ) → All (λ y. y ≢ q) ys → q ≢ prev → h' q ≡ h q
  loose : first_of func ys ≢ 0 → h' (first_of func ys) ≡ 0

Unlinked-here :
    (h : Store) (func : ℕ → Bool) (prev y : ℕ) (ys : List ℕ)
    → func y ≡ true
    → Runs h (h y) ys
    → All (λ z. z ≢ y) ys
    → All (λ z. z ≢ prev) ys
    → y ≢ prev
    → Unlinked h func prev (y ∷ ys) (put (put h prev (h y)) y 0)
unfolding without first_of
Unlinked-here h func prev y ys found r dy others a =
    let h' = put (put h prev (h y)) y 0 in
    let over : h' prev ≡ h y =
      put_other (put h prev (h y)) y 0 prev (λ s. a (sym s)) ∙ put_same h prev (h y) in
    record {
      runs =
          subst (λ q. Runs h' q (without func (y ∷ ys))) (sym over)
            (rw found (
              Runs-put (put h prev (h y)) (h y) y 0 ys dy
                (Runs-put h (h y) prev (h y) ys others r)));
      frame = λ q f n.
          put_other (put h prev (h y)) y 0 q (λ s. f.0 (sym s)) ∙ put_other h prev (h y) q n;
      loose = rw found (λ z. put_same (put h prev (h y)) y 0);
    }

unlink_behind :
    (fuel hd : ℕ) (h : Store) (func : ℕ → Bool) (prev p : ℕ) (ys : List ℕ)
    → Runs h p ys
    → AreApart ys
    → All (λ y. y ≢ prev) ys
    → prev ≢ 0
    → h prev ≡ p
    → length ys < fuel
    → (h' : Store) × (unlink_from fuel (record { head = hd; links = h }) func prev p
        ≡ some (first_of func ys, record { head = hd; links = h' }))
      × Unlinked h func prev ys h'
unfolding Runs AreApart unlink_from first_of without
unlink_behind zero hd h func prev p ys r d a nz e small = absurd (omega arith)
unlink_behind (suc fuel) hd h func prev p [] r d a nz e small =
    (h, rw r refl, record { runs = e ∙ r; frame = λ q f n. refl; loose = λ z. absurd (z refl) })
unlink_behind (suc fuel) hd h func prev p (y ∷ ys) (at, ynz, r) (dy, d) (a, others) nz e small =
    let here : (y == 0) ≡ false = ground arith in
    let behind : (prev == 0) ≡ false = ground arith in
    elim (Bool-cases (func y)) [
      | inl found ↦ (
        put (put h prev (h y)) y 0,
        rw (at, here, found, behind) refl,
        Unlinked-here h func prev y ys found r dy others a,
      )
      | inr passed ↦
          let (h', done, u) =
            unlink_behind fuel hd h func y (h y) ys r d dy ynz refl (omega arith) in
          (
            h',
            rw (at, here, passed) done,
            record {
              runs = rw passed (u.frame prev others (λ s. a (sym s)) ∙ e ∙ at, ynz, u.runs);
              frame = λ q f n. u.frame q f.1 (λ s. f.0 (sym s));
              loose = rw passed u.loose;
            },
          )
    ]

unlinks :
    (fuel : ℕ) (c : Chain) (func : ℕ → Bool) (xs : List ℕ)
    → Holds c xs
    → length xs < fuel
    → (c' : Chain) × (unlink_from fuel c func 0 c.head ≡ some (first_of func xs, c'))
      × Holds c' (without func xs)
      × (first_of func xs ≢ 0 → c'.links (first_of func xs) ≡ 0)
unfolding Runs AreApart unlink_from first_of without
unlinks zero c func xs v small = absurd (omega arith)
unlinks (suc fuel) c func [] v small = (c, rw v.runs refl, v, λ z. absurd (z refl))
unlinks (suc fuel) c func (x ∷ xs) v small =
    let (at, nz, r) = v.runs in
    let here : (x == 0) ≡ false = ground arith in
    elim (Bool-cases (func x)) [
      | inl found ↦ (
        record { head = c.links x; links = put c.links x 0 },
        rw (at, here, found) refl,
        rw found
            (record { runs = Runs-put c.links (c.links x) x 0 xs v.apart.0 r; apart = v.apart.1 }),
        rw found (λ z. put_same c.links x 0),
      )
      | inr passed ↦
          let (h', done, u) =
            unlink_behind fuel c.head c.links func x (c.links x) xs r v.apart.1 v.apart.0 nz refl
              (omega arith) in
          let held : (c.head == 0) ≡ false = ground (arith, at, nz) in
          let passed_head : func c.head ≡ false = ap func at ∙ passed in
          let moved : unlink_from fuel c func c.head (c.links c.head)
              ≡ unlink_from fuel c func x (c.links x) =
            λ i. unlink_from fuel c func (at i) (c.links (at i)) in
          (
            record { head = c.head; links = h' },
            rw (held, passed_head, passed, moved) done,
            rw passed (record {
              runs = (at, nz, u.runs);
              apart =
                  (All-without (λ y. y ≢ x) func xs v.apart.0, AreApart-without func xs v.apart.1);
            }),
            rw passed u.loose,
          )
    ]

-- `_list_find` on a chain of elements, with fuel for one more, returns the first one that passes the
-- test, or NULL, and `_list_unlink` the same; the chain that it leaves holds the others in their
-- order, and what is returned, if it is not NULL, is linked to nothing.
pub list_unlink_lem :
    (fuel : ℕ) (c : Chain) (func : ℕ → Bool) (xs : List ℕ)
    → Holds c xs
    → length xs < fuel
    → (list_find fuel c func ≡ some (first_of func xs))
      × ((c' : Chain) × (list_unlink fuel c func ≡ some (first_of func xs, c'))
          × Holds c' (without func xs)
          × ((first_of func xs ≡ 0) ⊎ (c'.links (first_of func xs) ≡ 0)))
unfolding list_find list_unlink
list_unlink_lem fuel c func xs v small =
    let (c', done, held, loose) = unlinks fuel c func xs v small in
    let released : (first_of func xs ≡ 0) ⊎ (c'.links (first_of func xs) ≡ 0) =
      elim (Bool-cases (first_of func xs == 0)) [
        | inl e ↦ inl (ground (arith, e))
        | inr e ↦ inr (loose (ground (arith, e)))
      ] in
    (find_in-Runs fuel c.links func c.head xs v.runs small, (c', done, held, released))

clear_from-Runs :
    (fuel : ℕ) (spoil : ℕ → ℕ) (h : Store) (p : ℕ) (xs : List ℕ)
    → Runs h p xs
    → AreApart xs
    → length xs < fuel
    → (h' : Store) × (clear_from fuel spoil h p (if p == 0 then 0 else h p) ≡ some (xs, h'))
unfolding Runs AreApart clear_from
clear_from-Runs zero spoil h p xs r d small = absurd (omega arith)
clear_from-Runs (suc fuel) spoil h p [] r d small = (h, rw r refl)
clear_from-Runs (suc fuel) spoil h p (x ∷ xs) (at, nz, r) (dx, d) small =
    let here : (x == 0) ≡ false = ground arith in
    let spoiled = put h x (spoil x) in
    let (h', done) =
      clear_from-Runs fuel spoil spoiled (h x) xs (Runs-put h (h x) x (spoil x) xs dx r) d
        (omega arith) in
    (h', rw (at, here, done) refl)

-- `_list_clear` calls the callback on every element once, in their order, whatever it leaves in the
-- links of the elements it is called on, and leaves an empty list.
pub list_clear_lem :
    (fuel : ℕ) (spoil : ℕ → ℕ) (c : Chain) (xs : List ℕ)
    → Holds c xs
    → length xs < fuel
    → (c' : Chain) × (list_clear fuel spoil c ≡ some (xs, c')) × Holds c' []
unfolding list_clear Runs AreApart
list_clear_lem fuel spoil c xs v small =
    let (h', done) = clear_from-Runs fuel spoil c.links c.head xs v.runs v.apart small in
    (record { head = 0; links = h' }, rw done refl, record { runs = refl; apart = tt })
