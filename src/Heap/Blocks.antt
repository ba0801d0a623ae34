-- ===== src/Heap/Blocks.antt =====
-- When the list of pages is valid: blocks that lie apart, linked, with their checks whole.
use workqueue.Heap.Layout.{page_chks}
use workqueue.Heap.Unlink.{SameButLinks}
use workqueue.Heap.Bytes.{word_at-same, SameFrom, word_at, Bytes}
use workqueue.Prelude.{
  All-combine, All-map, ◌∙◌, ◌≡◌, ◌<◌, ◌⊎◌, arith, All, List, ◌+◌, ◌≤◌, ℕ, inl, inr, [], ◌∷◌,
}
use workqueue.Heap.Calls.{rw_frontchks, rw_userblockptr, rw_userblocksize, ro_next, Pagelink}
use workqueue.Heap.Linked.{Clear-sym, Linked, end_of, Clear, PagesApart, Page}

module _ (P : ℕ) where
  -- The user's pointer into a block.
  abbrev pub user : Page → ℕ
  user x = rw_userblockptr P x.start

  pub record Intact (m : Bytes) (x : Page) : Type 0 where
    pub fits : end_of P x ≤ 4294967296
    pub size : word_at m (rw_userblocksize P x.start) ≡ x.size
    pub front : word_at m (rw_frontchks P x.start) ≡ page_chks
    pub tail : word_at m (user x + x.size) ≡ page_chks

  pub record Valid (s : Pagelink) (xs : List Page) : Type 0 where
    pub linked : Linked P s.bytes s.head xs
    pub apart : PagesApart P xs
    pub intact : All (Intact s.bytes) xs

  -- The link of z does not lie where the layout of y does.
  abbrev pub OffLink : Page → Page → Type 0
  OffLink y z = (end_of P y ≤ z.start) ⊎ (z.start ≤ y.start)

  pub Clear-OffLink : (x y : Page) → Clear P x y → OffLink x y
  Clear-OffLink x y (inl a) = inl a
  Clear-OffLink x y (inr a) = inr (omega arith)

  pub off_links : (xs : List Page) → PagesApart P xs → All (λ y. All (OffLink y) xs) xs
  unfolding PagesApart
  off_links [] d = tt
  off_links (x ∷ xs) (dx, d) = (
    (inr (omega arith), All-map (Clear P x) (OffLink x) xs (Clear-OffLink x) dx),
    All-combine (Clear P x) (λ y. All (OffLink y) xs) (λ y. All (OffLink y) (x ∷ xs)) xs
        (λ y c o. (Clear-OffLink y x (Clear-sym P x y c), o)) dx (off_links xs d),
  )

  off_byte :
      (y : Page) (q : ℕ)
      → 4 ≤ P
      → y.start + P ≤ q
      → q < end_of P y
      → (z : Page) → OffLink y z
      → (q < ro_next P z.start) ⊎ (z.start + P ≤ q)
  off_byte y q four from to z (inl a) = inl (omega arith)
  off_byte y q four from to z (inr a) = inr (omega arith)

  pub layout_same :
      (m m' : Bytes) (y : Page) (ls : List Page)
      → 4 ≤ P
      → All (OffLink y) ls
      → SameButLinks P ls m m'
      → SameFrom (y.start + P) (end_of P y) m m'
  layout_same m m' y ls four off same q from to = same q (
      All-map (OffLink y) (λ z. (q < ro_next P z.start) ⊎ (z.start + P ≤ q)) ls
        (off_byte y q four from to) off)

  pub Intact-same :
      (m m' : Bytes) (y : Page)
      → SameFrom (y.start + P) (end_of P y) m m'
      → Intact m y
      → Intact m' y
  Intact-same m m' y same i =
      let read = word_at-same m m' (y.start + P) (end_of P y) in
      record {
        fits = i.fits;
        size = read (rw_userblocksize P y.start) same (omega arith) (omega arith) ∙ i.size;
        front = read (rw_frontchks P y.start) same (omega arith) (omega arith) ∙ i.front;
        tail = read (user y + y.size) same (omega arith) (omega arith) ∙ i.tail;
      }
