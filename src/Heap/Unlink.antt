-- ===== src/Heap/Unlink.antt =====
-- `__unlink_page`: the loop takes the block that it looks for out of the list.
use workqueue.Platform.Run.{Run, done}
use workqueue.Heap.Bytes.{put_word-SameBut, word_at-put_word, Bytes, put_word}
use workqueue.Prelude.{
  All-before, All-cut, Bool, ◌∙◌, sym, subst, ◌+◌, ◌⊎◌, ◌==◌, arith, length, if◌then◌else◌, ◌≡◌,
  ◌<◌, ◌++◌, ◌≢◌, All, ◌≤◌, List, ℕ, zero, suc, refl, true, false, inl, inr, [], ◌∷◌,
}
use workqueue.Heap.Calls.{
  set_head, next_page, set_next, unlink_loop, ro_next, modecontrol, relink, Pagelink,
}
use workqueue.Heap.Linked.{
  next_page-put, Linked-put, Clear, start_apart, PagesApart, Linked, Among, Page,
}

-- The pages of the links that may change: all other bytes are the same in both.
abbrev pub SameButLinks : ℕ → List Page → Bytes → Bytes → Type 0
SameButLinks P ls m m' =
    (q : ℕ) → All (λ y. (q < ro_next P y.start) ⊎ (y.start + P ≤ q)) ls → m' q ≡ m q

-- The state after a change of a link.
abbrev pub relinked : ℕ → Pagelink → ℕ → ℕ → Pagelink
relinked P s page v = record {
  head = s.head;
  bytes = put_word s.bytes (ro_next P page) v;
  read_only = λ q. if q == page then true else if q == page then false else s.read_only q;
  freed = s.freed;
}

pub relink_lem :
    (P : ℕ) (s : Pagelink) (page v : ℕ) → relink P page v s ≡ done tt (relinked P s page v)
unfolding relink modecontrol set_next
relink_lem P s page v = let here : (page == page) ≡ true = ground arith in rw here refl

module _ (P : ℕ) (four : 4 ≤ P) where
  pub put-SameButLinks :
      (m : Bytes) (l : Page) (ls : List Page) (v : ℕ)
      → Among l ls
      → SameButLinks P ls m (put_word m (ro_next P l.start) v)
  unfolding Among
  put-SameButLinks m l ls v inside q off =
      let at : (q < ro_next P l.start) ⊎ (l.start + P ≤ q) =
        inside (λ y. (q < ro_next P y.start) ⊎ (y.start + P ≤ q)) off in
      put_word-SameBut m (ro_next P l.start) v q
        (elim at [ inl a ↦ inl a | inr a ↦ inr (omega arith) ])

  Linked-small :
      (m : Bytes) (p : ℕ) (xs : List Page)
      → Linked P m p xs
      → All (λ y. y.start < 4294967296) xs
      → p < 4294967296
  unfolding Linked
  Linked-small m p [] r a = omega arith
  Linked-small m p (x ∷ xs) r a = omega (arith, r.0, a.0)

  passing :
      (fuel : ℕ) (s : Pagelink) (start pre cur q : ℕ) {r : Run Pagelink Bool}
      → cur ≡ q
      → (q == 0) ≡ false
      → (q == start) ≡ false
      → unlink_loop P fuel start q (next_page P s.bytes q) s ≡ r
      → unlink_loop P (suc fuel) start pre cur s ≡ r
  unfolding unlink_loop
  passing fuel s start pre cur q at here other rest = rw (at, here, other) rest

  -- The loop behind a page that it has passed.
  unlink_behind :
      (fuel : ℕ) (s : Pagelink) (w x : Page) (p : ℕ) (xs ys : List Page)
      → Linked P s.bytes p (xs ++ x ∷ ys)
      → PagesApart P (w ∷ xs ++ x ∷ ys)
      → All (λ y. y.start < 4294967296) (xs ++ x ∷ ys)
      → w.start ≢ 0
      → next_page P s.bytes w.start ≡ p
      → length xs < fuel
      → (l : Page) × (v : ℕ) × (unlink_loop P fuel x.start w.start p s
          ≡ done true (relinked P s l.start v))
        × Linked P
            (put_word s.bytes (ro_next P l.start) v)
            (next_page P (put_word s.bytes (ro_next P l.start) v) w.start)
            (xs ++ ys)
        × Among l (w ∷ xs)
  unfolding unlink_loop Linked PagesApart Among
  unlink_behind zero s w x p xs ys r d a nz e enough = absurd (omega arith)
  unlink_behind (suc fuel) s w x p [] ys (at, xnz, r) (dw, d) a nz e enough =
      let here : (x.start == 0) ≡ false = ground arith in
      let found : (x.start == x.start) ≡ true = ground arith in
      let behind : (w.start == 0) ≡ false = ground arith in
      let v = next_page P s.bytes x.start in
      let m' = put_word s.bytes (ro_next P w.start) v in
      let over : next_page P m' w.start ≡ v =
        word_at-put_word s.bytes (ro_next P w.start) v (Linked-small s.bytes v ys r a.1) in
      (
        w,
        v,
        rw (at, here, found, behind, relink_lem P s w.start v) refl,
        subst (λ q. Linked P m' q ys) (sym over) (Linked-put P s.bytes v w v ys four dw.1 r),
        λ Q q. q.0,
      )
  unlink_behind (suc fuel) s w x p (z ∷ zs) ys (at, znz, r) (dw, d) a nz e enough =
      let here : (z.start == 0) ≡ false = ground arith in
      let apart : z.start ≢ x.start = start_apart P z x (All-cut (Clear P z) zs x ys d.0).0 in
      let passed : (z.start == x.start) ≡ false = ground (arith, apart) in
      let (l, v, gone, shorter, inside) =
        unlink_behind fuel s z x (next_page P s.bytes z.start) zs ys r d a.1 znz refl
          (omega arith) in
      let kept =
        next_page-put P s.bytes l w v four
          (inside (Clear P w) (dw.0, (All-before (Clear P w) zs (x ∷ ys) dw.1))) in
      (
        l,
        v,
        passing fuel s x.start w.start p z.start at here passed gone,
        (kept ∙ e ∙ at, znz, shorter),
        λ Q q. inside Q q.1,
      )

  -- `__unlink_page` on a list with the block takes it out and changes no byte but those of links
  -- before it.
  pub unlink_loop_lem :
      (fuel : ℕ) (s : Pagelink) (x : Page) (xs ys : List Page)
      → Linked P s.bytes s.head (xs ++ x ∷ ys)
      → PagesApart P (xs ++ x ∷ ys)
      → All (λ y. y.start < 4294967296) (xs ++ x ∷ ys)
      → length xs < fuel
      → (t : Pagelink) × (unlink_loop P fuel x.start 0 s.head s ≡ done true t)
        × Linked P t.bytes t.head (xs ++ ys)
        × SameButLinks P xs s.bytes t.bytes
        × (t.freed ≡ s.freed)
  unfolding unlink_loop Linked PagesApart set_head
  unlink_loop_lem zero s x xs ys r d a enough = absurd (omega arith)
  unlink_loop_lem (suc fuel) s x [] ys (at, xnz, r) d a enough =
      let here : (x.start == 0) ≡ false = ground arith in
      let found : (x.start == x.start) ≡ true = ground arith in
      (
        record {
          head = next_page P s.bytes x.start;
          bytes = s.bytes;
          read_only = s.read_only;
          freed = s.freed;
        },
        rw (at, here, found) refl,
        r,
        λ q off. refl,
        refl,
      )
  unlink_loop_lem (suc fuel) s x (z ∷ zs) ys (at, znz, r) d a enough =
      let here : (z.start == 0) ≡ false = ground arith in
      let apart : z.start ≢ x.start = start_apart P z x (All-cut (Clear P z) zs x ys d.0).0 in
      let passed : (z.start == x.start) ≡ false = ground (arith, apart) in
      let (l, v, gone, shorter, inside) =
        unlink_behind fuel s z x (next_page P s.bytes z.start) zs ys r d a.1 znz refl
          (omega arith) in
      (
        relinked P s l.start v,
        passing fuel s x.start 0 s.head z.start at here passed gone,
        (at, znz, shorter),
        put-SameButLinks s.bytes l (z ∷ zs) v inside,
        refl,
      )

  -- A block that is not in the list is not found.
  pub unlink_loop-absent :
      (fuel : ℕ) (s : Pagelink) (start pre p : ℕ) (ys : List Page)
      → Linked P s.bytes p ys
      → All (λ y. y.start ≢ start) ys
      → length ys < fuel
      → unlink_loop P fuel start pre p s ≡ done false s
  unfolding unlink_loop Linked
  unlink_loop-absent zero s start pre p ys r a enough = absurd (omega arith)
  unlink_loop-absent (suc fuel) s start pre p [] r a enough = rw r refl
  unlink_loop-absent (suc fuel) s start pre p (y ∷ ys) (at, ynz, r) (ay, a) enough =
      let here : (y.start == 0) ≡ false = ground arith in
      let passed : (y.start == start) ≡ false = ground (arith, ay) in
      passing fuel s start pre p y.start at here passed
        (unlink_loop-absent fuel s start y.start (next_page P s.bytes y.start) ys r a (omega arith))
