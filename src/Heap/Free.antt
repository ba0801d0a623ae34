-- ===== src/Heap/Free.antt =====
-- `libwq_free`: a block is found by the user's pointer, taken out of the list, checked and released.
use workqueue.Heap.Unlink.{unlink_loop_lem, SameButLinks}
use workqueue.Platform.Run.{done}
use workqueue.Heap.Layout.{word, page_chks}
use workqueue.Heap.Bytes.{word_at-same, word_at, SameFrom, Bytes}
use workqueue.Prelude.{
  All-map, All-before, All-cut, ◌∙◌, ◌<◌, length, ◌≢◌, ◌==◌, arith, All, ◌≡◌, ◌+◌, ◌++◌,
  if◌then◌else◌, ◌≤◌, List, Option, ℕ, refl, none, some, true, false, ◌∷◌,
}
use workqueue.Heap.Calls.{
  free_block, unlink_loop, back, rw_userblocksize, modecontrol, rw_frontchks, unlink_page,
  return_start, except_of, libwq_free, Pagelink, Except, broken_head, broken_tail,
}
use workqueue.Heap.Linked.{PagesApart, Linked, end_of, Page}
use workqueue.Heap.Blocks.{layout_same, off_links, OffLink, user}

-- What the words of the checks of a block say.
unfoldable pub verdict : ℕ → Bytes → Page → Option Except
verdict P m x =
    if word_at m (rw_frontchks P x.start) == page_chks
    then (if word_at m (user P x + x.size) == page_chks then none else some broken_tail)
    else some broken_head

-- The blocks that are released with this verdict, the last first.
abbrev pub released : Option Except → Page → List ℕ → List ℕ
released none x freed = x.start ∷ freed
released (some e) x freed = freed

module _ (P : ℕ) (four : 4 ≤ P) where
  -- The list before a call of `libwq_free` for the block x, whose checks may be broken.
  pub record Held (s : Pagelink) (xs : List Page) (x : Page) (ys : List Page) : Type 0 where
    pub linked : Linked P s.bytes s.head (xs ++ x ∷ ys)
    pub apart : PagesApart P (xs ++ x ∷ ys)
    pub fits : All (λ y. end_of P y ≤ 4294967296) (xs ++ x ∷ ys)
    pub size : word_at s.bytes (rw_userblocksize P x.start) ≡ x.size

  back_start : (x : Page) → end_of P x ≤ 4294967296 → return_start P (user P x) ≡ x.start
  back_start x fits = omega arith

  except_of-verdict :
      (m : Bytes) (x : Page)
      → end_of P x ≤ 4294967296
      → word_at m (rw_userblocksize P x.start) ≡ x.size
      → except_of P (user P x) m ≡ verdict P m x
  unfolding except_of verdict
  except_of-verdict m x fits size =
      let front : back P (user P x) 4 ≡ rw_frontchks P x.start = omega arith in
      let sized : back P (user P x) 8 ≡ rw_userblocksize P x.start = omega arith in
      let tail : word (user P x + x.size) ≡ user P x + x.size = omega arith in
      rw (front, sized, size, tail) refl

  verdict-same :
      (m m' : Bytes) (x : Page)
      → SameFrom (x.start + P) (end_of P x) m m'
      → verdict P m' x ≡ verdict P m x
  unfolding verdict
  verdict-same m m' x same =
      let read = word_at-same m m' (x.start + P) (end_of P x) in
      rw
        (
          read (rw_frontchks P x.start) same (omega arith) (omega arith),
          read (user P x + x.size) same (omega arith) (omega arith),
        )
        refl

  after_unlink :
      (fuel : ℕ) (s t : Pagelink) (ptr : ℕ) (v : Option Except)
      → ptr ≢ 0
      → unlink_loop P fuel (return_start P ptr) 0 s.head s ≡ done true t
      → except_of P ptr t.bytes ≡ v
      → (u : Pagelink) × (libwq_free P fuel ptr s ≡ done v u)
        × (u.head ≡ t.head)
        × (u.bytes ≡ t.bytes)
        × (u.freed ≡ elim v [ none ↦ return_start P ptr ∷ t.freed | some e ↦ t.freed ])
  unfolding libwq_free unlink_page modecontrol free_block
  after_unlink fuel s t ptr none nz found checks =
      let here : (ptr == 0) ≡ false = ground (arith, nz) in
      (
        record {
          head = t.head;
          bytes = t.bytes;
          read_only = λ q. if q == return_start P ptr then false else t.read_only q;
          freed = return_start P ptr ∷ t.freed;
        },
        rw (here, found, checks) refl,
        refl,
        refl,
        refl,
      )
  after_unlink fuel s t ptr (some e) nz found checks =
      let here : (ptr == 0) ≡ false = ground (arith, nz) in
      (t, rw (here, found, checks) refl, refl, refl, refl)

  released_lem :
      (v : Option Except) (x : Page) (start : ℕ) (freed freed' : List ℕ)
      → start ≡ x.start
      → freed ≡ freed'
      → elim v [ none ↦ start ∷ freed | some e ↦ freed ] ≡ released v x freed'
  released_lem none x start freed freed' at same = rw (at, same) refl
  released_lem (some e) x start freed freed' at same = same

  pub off_cut :
      (xs : List Page) (x : Page) (ys : List Page)
      → PagesApart P (xs ++ x ∷ ys)
      → All (OffLink P x) xs × All (λ y. All (OffLink P y) xs) (xs ++ ys)
  off_cut xs x ys d =
      let (own, rest, behind) =
        All-cut (λ y. All (OffLink P y) (xs ++ x ∷ ys)) xs x ys (off_links P (xs ++ x ∷ ys) d) in
      (
        All-before (OffLink P x) xs (x ∷ ys) own,
        All-map (λ y. All (OffLink P y) (xs ++ x ∷ ys)) (λ y. All (OffLink P y) xs) (xs ++ ys)
            (λ y. All-before (OffLink P y) xs (x ∷ ys)) rest,
      )

  -- `libwq_free` of the user's pointer of a block in the list returns, or ends the process with
  -- what the words of its checks say; either way the block is out of the list, no byte has changed
  -- but those of links before it, and it is released exactly if both checks are whole.
  pub libwq_free_lem :
      (fuel : ℕ) (s : Pagelink) (xs : List Page) (x : Page) (ys : List Page)
      → Held s xs x ys
      → length xs < fuel
      → (t : Pagelink) × (libwq_free P fuel (user P x) s ≡ done (verdict P s.bytes x) t)
        × Linked P t.bytes t.head (xs ++ ys)
        × SameButLinks P xs s.bytes t.bytes
        × (t.freed ≡ released (verdict P s.bytes x) x s.freed)
  libwq_free_lem fuel s xs x ys held enough =
      let fits : end_of P x ≤ 4294967296 =
        (All-cut (λ y. end_of P y ≤ 4294967296) xs x ys held.fits).0 in
      let (t, found, shorter, same, freed) =
        unlink_loop_lem P four fuel s x xs ys held.linked held.apart
          (All-map (λ y. end_of P y ≤ 4294967296) (λ y. y.start < 4294967296) (xs ++ x ∷ ys)
            (λ y f. omega arith) held.fits)
          enough in
      let at = back_start x fits in
      let kept : SameFrom (x.start + P) (end_of P x) s.bytes t.bytes =
        layout_same P s.bytes t.bytes x xs four (off_cut xs x ys held.apart).0 same in
      let sized : word_at t.bytes (rw_userblocksize P x.start) ≡ x.size =
        word_at-same s.bytes t.bytes (x.start + P) (end_of P x) (rw_userblocksize P x.start) kept
          (omega arith) (omega arith)
        ∙ held.size in
      let checks = except_of-verdict t.bytes x fits sized ∙ verdict-same s.bytes t.bytes x kept in
      let (u, ends, heads, bytes, gone) =
        after_unlink fuel s t (user P x) (verdict P s.bytes x) (λ e. absurd (omega arith))
          ((λ i. unlink_loop P fuel (at i) 0 s.head s) ∙ found) checks in
      (
        u,
        ends,
        rw (heads, bytes) shorter,
        rw bytes same,
        gone
            ∙ released_lem (verdict P s.bytes x) x (return_start P (user P x)) t.freed s.freed at
                freed,
      )
