-- ===== src/Heap/Layout.antt =====
-- Where the fields of a block lie, and how many pages it takes. All fields are words of four bytes, and
-- P is `page_size`.
use workqueue.Prelude.{
  ◌∙◌, true, Bool-cases, inl, inr, arith, ◌⊎◌, ltb, if◌then◌else◌, ◌*◌, ◌≡◌, ◌+◌, with_some, ◌%◌,
  Option, ◌≤◌, ◌<◌, ℕ, zero, suc, refl, none, some,
}

abbrev pub word : ℕ → ℕ
word n = n % 4294967296

abbrev pub page_chks : ℕ
page_chks = 441273626

-- `rw_page_number` of the loop of `page_require_test`, `n` before it; none when the fuel is spent.
unfoldable pub rw_pages : ℕ → ℕ → ℕ → ℕ → Option ℕ
rw_pages zero P our_requiresize n = none
rw_pages (suc fuel) P our_requiresize n =
    let rest = rw_pages fuel P our_requiresize (word (n + 1)) in
    if ltb (word (word (n + 1) * P)) our_requiresize then rest else some (word (n + 1))

unfoldable pub page_require_test : ℕ → ℕ → ℕ → Option ℕ
unfolding rw_pages
page_require_test fuel P size =
    with_some (rw_pages fuel P (word (4 + 4 * 5 + 4 + 4 + size + 4)) 0) (λ n. some (word (1 + n)))

again :
    (fuel P our n : ℕ)
    → word (n + 1) ≡ n + 1
    → ltb (word ((n + 1) * P)) our ≡ true
    → rw_pages (suc fuel) P our n ≡ rw_pages fuel P our (n + 1)
unfolding rw_pages
again fuel P our n at more = rw (at, more) refl

rw_pages_lem :
    (fuel P our n : ℕ)
    → 1 ≤ P
    → our + P ≤ 4294967296
    → n ≤ n * P
    → (n * P < our) ⊎ (n * P ≡ 0)
    → 1 ≤ our
    → our < n + fuel
    → (k : ℕ) × (rw_pages fuel P our n ≡ some k) × (our ≤ k * P) × (k * P < our + P)
unfolding rw_pages
rw_pages_lem zero P our n one fits grows under some_our enough = absurd (omega arith)
rw_pages_lem (suc fuel) P our n one fits grows under some_our enough =
    let step : (n + 1) * P ≡ n * P + P = omega arith in
    let small : n * P < our + P = omega arith in
    let at : word (n + 1) ≡ n + 1 = omega arith in
    let product : word ((n + 1) * P) ≡ n * P + P = omega arith in
    elim (Bool-cases (ltb (n * P + P) our)) [
      | inl more ↦
          let (k, found, big, least) =
            rw_pages_lem fuel P our (n + 1) one fits (omega arith) (inl (ground arith)) some_our
              (omega arith) in
          (k, again fuel P our n at (rw product more) ∙ found, big, least)
      | inr enough_pages ↦ (n + 1, rw (at, product, enough_pages) refl, ground arith, omega arith)
    ]

with_ro_page :
    (fuel P our total k : ℕ)
    → total ≡ our
    → rw_pages fuel P our 0 ≡ some k
    → word (1 + k) ≡ 1 + k
    → with_some (rw_pages fuel P total 0) (λ n. some (word (1 + n))) ≡ some (1 + k)
with_ro_page fuel P our total k at found small = rw (at, found, small) refl

mul_grows : (k P : ℕ) → 4 ≤ P → 4 * k ≤ k * P
mul_grows zero P four = omega arith
mul_grows (suc k) P four = let before = mul_grows k P four in omega arith

-- Where the layout of a block and one page more fit in 32 bits, `page_require_test` with fuel for as many
-- rounds as the layout has bytes gives one page and the fewest that hold the layout.
pub page_require_test_lem :
    (fuel P size : ℕ)
    → 4 ≤ P
    → 36 + size + P ≤ 4294967296
    → 36 + size < fuel
    → (k : ℕ) × (page_require_test fuel P size ≡ some (1 + k))
      × (36 + size ≤ k * P)
      × (k * P < 36 + size + P)
unfolding page_require_test
page_require_test_lem fuel P size four fits enough =
    let sum : word (4 + 4 * 5 + 4 + 4 + size + 4) ≡ 36 + size = omega arith in
    let (k, found, big, least) =
      rw_pages_lem fuel P (36 + size) 0 (omega arith) fits (omega arith) (inr (omega arith))
        (omega arith) (omega arith) in
    let few : 4 * k ≤ k * P = mul_grows k P four in
    let fits_word : word (1 + k) ≡ 1 + k = omega arith in
    (k, with_ro_page fuel P (36 + size) _ k sum found fits_word, big, least)

spins : (fuel our n : ℕ) → 4294963200 < our → rw_pages fuel 4096 our n ≡ none
unfolding rw_pages
spins zero our n big = refl
spins (suc fuel) our n big =
    let under : word (word (n + 1) * 4096) < our = omega arith in
    ground (arith, spins fuel our (word (n + 1)) big)

-- With pages of 4096 bytes, `page_require_test` never ends for a size whose layout ends in the last
-- page of 32 bits: no fuel is enough.
pub page_require_test_spins :
    (fuel size : ℕ)
    → 4294963200 < 36 + size
    → 36 + size < 4294967296
    → page_require_test fuel 4096 size ≡ none
unfolding page_require_test
page_require_test_spins fuel size big small =
    let sum : word (4 + 4 * 5 + 4 + 4 + size + 4) ≡ 36 + size = omega arith in
    rw (sum, spins fuel (36 + size) 0 big) refl
