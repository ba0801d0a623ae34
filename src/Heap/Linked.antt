-- ===== src/Heap/Linked.antt =====
-- Which blocks the list of pages holds, and what a change of a link does to it.
use workqueue.Heap.Bytes.{word_at-put_word, put_word-SameBut, word_at-other, put_word, Bytes}
use workqueue.Prelude.{
  sym, subst, ◌∙◌, ◌==◌, ◌++◌, length, ◌≡◌, ◌<◌, ◌⊎◌, arith, ◌≤◌, ◌+◌, ◌≢◌, All, ℕ, List, zero, suc,
  refl, some, true, false, inl, inr, [], ◌∷◌,
}
use workqueue.Heap.Calls.{next_page, ro_next, last_page}

-- A block by its first page and the size that the user asked for.
pub record Page : Type 0 where
  pub start : ℕ
  pub size : ℕ

unfoldable pub Among : Page → List Page → Type 1
Among l xs = (Q : Page → Type 0) → All Q xs → Q l

module _ (P : ℕ) where
  -- What is behind the layout of a block.
  abbrev pub end_of : Page → ℕ
  end_of x = x.start + P + 36 + x.size

  abbrev pub Clear : Page → Page → Type 0
  Clear x y = (end_of x ≤ y.start) ⊎ (end_of y ≤ x.start)

  unfoldable pub PagesApart : List Page → Type 0
  PagesApart [] = Unit {0}
  PagesApart (x ∷ xs) = All (Clear x) xs × PagesApart xs

  -- From the page p on the links run through the pages of these blocks to NULL.
  unfoldable pub Linked : Bytes → ℕ → List Page → Type 0
  Linked m p [] = p ≡ 0
  Linked m p (x ∷ xs) = (p ≡ x.start) × (x.start ≢ 0) × Linked m (next_page P m x.start) xs

  pub Clear-sym : (x y : Page) → Clear x y → Clear y x
  Clear-sym x y (inl a) = inr a
  Clear-sym x y (inr a) = inl a

  pub start_apart : (x y : Page) → Clear x y → x.start ≢ y.start
  start_apart x y (inl a) e = absurd (omega arith)
  start_apart x y (inr a) e = absurd (omega arith)

  -- A change of the link of one block leaves that of another.
  pub next_page-put :
      (m : Bytes) (l x : Page) (v : ℕ)
      → 4 ≤ P
      → Clear x l
      → next_page P (put_word m (ro_next P l.start) v) x.start ≡ next_page P m x.start
  next_page-put m l x v four (inl a) =
      word_at-other m (put_word m (ro_next P l.start) v) (ro_next P l.start) (ro_next P l.start + 4)
        (ro_next P x.start) (put_word-SameBut m (ro_next P l.start) v) (inl (omega arith))
  next_page-put m l x v four (inr a) =
      word_at-other m (put_word m (ro_next P l.start) v) (ro_next P l.start) (ro_next P l.start + 4)
        (ro_next P x.start) (put_word-SameBut m (ro_next P l.start) v) (inr (omega arith))

  pub Linked-put :
      (m : Bytes) (p : ℕ) (l : Page) (v : ℕ) (xs : List Page)
      → 4 ≤ P
      → All (Clear l) xs
      → Linked m p xs
      → Linked (put_word m (ro_next P l.start) v) p xs
  unfolding Linked
  Linked-put m p l v [] four c r = r
  Linked-put m p l v (x ∷ xs) four (cx, c) (e, nz, r) = (
    e,
    nz,
    rw (next_page-put m l x v four (Clear-sym l x cx))
        (Linked-put m (next_page P m x.start) l v xs four c r),
  )

  -- The last page is found, and what is put in its link is the end of the longer list.
  pub Linked-append :
      (fuel : ℕ) (m : Bytes) (p : ℕ) (new x : Page) (xs : List Page)
      → 4 ≤ P
      → Linked m p (x ∷ xs)
      → PagesApart (x ∷ xs)
      → All (Clear new) (x ∷ xs)
      → new.start ≢ 0
      → new.start < 4294967296
      → next_page P m new.start ≡ 0
      → length xs < fuel
      → (l : Page) × (last_page P fuel m p ≡ some l.start)
        × Linked (put_word m (ro_next P l.start) new.start) p ((x ∷ xs) ++ new ∷ [])
        × Among l (x ∷ xs)
  unfolding Linked PagesApart last_page Among
  Linked-append zero m p new x xs four r d c nz small e enough = absurd (omega arith)
  Linked-append (suc fuel) m p new x [] four (at, xnz, r) d (cx, c) nz small e enough =
      let here : (x.start == 0) ≡ false = ground arith in
      let final : (next_page P m x.start == 0) ≡ true = ground arith in
      (
        x,
        rw (at, here, final) refl,
        (
          at,
          xnz,
          (
            word_at-put_word m (ro_next P x.start) new.start small,
            nz,
            next_page-put m x new new.start four cx ∙ e,
          ),
        ),
        λ Q q. q.0,
      )
  Linked-append (suc fuel) m p new x (y ∷ ys) four (at, xnz, r) (dx, d) (cx, c) nz small e enough =
      let (l, found, longer, inside) =
        Linked-append fuel m (next_page P m x.start) new y ys four r d c nz small e (omega arith) in
      let here : (x.start == 0) ≡ false = ground arith in
      let linked : (next_page P m x.start == 0) ≡ false = ground (arith, r.0, r.1) in
      let kept = next_page-put m l x new.start four (inside (Clear x) dx) in
      (
        l,
        rw (at, here, linked) found,
        (
          at,
          xnz,
          subst (λ q. Linked (put_word m (ro_next P l.start) new.start) q ((y ∷ ys) ++ new ∷ []))
              (sym kept) longer,
        ),
        λ Q q. inside Q q.1,
      )
