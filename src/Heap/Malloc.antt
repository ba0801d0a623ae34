-- ===== src/Heap/Malloc.antt =====
-- `libwq_malloc`: a new block is filled, linked behind the others and made read-only.
use workqueue.Heap.Linking.{PagesApart-append, link_page_lem}
use workqueue.Heap.Prefix.{prefixed_lem}
use workqueue.Heap.Bytes.{word_at-other, SameFrom, SameBut, Bytes}
use workqueue.Platform.Run.{done}
use workqueue.Heap.Layout.{page_require_test_lem, word, page_require_test}
use workqueue.Prelude.{
  ◌∙◌, All-combine, All-map, inl, inr, if◌then◌else◌, arith, ◌==◌, ◌*◌, length, ◌⊎◌, All-append,
  ◌≡◌, ◌++◌, ◌<◌, ◌+◌, ◌≢◌, All, List, ◌≤◌, ℕ, refl, some, true, false, [], ◌∷◌,
}
use workqueue.Heap.Calls.{
  ro_next, rw_userblockptr, prefixed, next_page, modecontrol, set_prefix, generate_page, link_page,
  libwq_malloc, Pagelink,
}
use workqueue.Heap.Linked.{end_of, Clear, Linked, Page}
use workqueue.Heap.Blocks.{
  Intact-same, off_links, Clear-OffLink, OffLink, layout_same, user, Intact, Valid,
}

module _ (P : ℕ) (four : 4 ≤ P) where
  -- What `memalign` promises of a block of `total` bytes that it gives: it is memory that can be
  -- written, and that no block of the list has.
  pub record Grants (s : Pagelink) (xs : List Page) (total b : ℕ) : Type 0 where
    pub some_block : b ≢ 0
    pub fits : b + total ≤ 4294967296
    pub writable : s.read_only b ≡ false
    pub apart : All (λ y. (end_of P y ≤ b) ⊎ (b + total ≤ y.start)) xs

  generated :
      (fuel : ℕ) (memalign : ℕ → ℕ) (trace : List ℕ) (size n b : ℕ) (s t : Pagelink)
      → size ≢ 0
      → page_require_test fuel P size ≡ some n
      → memalign (word (P * n)) ≡ b
      → b ≢ 0
      → s.read_only b ≡ false
      → link_page P fuel b (record {
        head = s.head;
        bytes = prefixed P (word (P * n)) trace size b s.bytes;
        read_only = s.read_only;
        freed = s.freed;
      })
        ≡ done tt t
      → libwq_malloc P fuel memalign trace size s
        ≡ done (rw_userblockptr P b) (record {
          head = t.head;
          bytes = t.bytes;
          read_only = λ q. if q == b then true else t.read_only q;
          freed = t.freed;
        })
  unfolding libwq_malloc generate_page set_prefix modecontrol
  generated fuel memalign trace size n b s t some_size pages grant nz writable linked =
      let asked : (size == 0) ≡ false = ground (arith, some_size) in
      let granted : (b == 0) ≡ false = ground (arith, nz) in
      rw (asked, pages, grant, granted, writable, linked)
        (λ i. done (if granted i then 0 else rw_userblockptr P b) (record {
          head = t.head;
          bytes = t.bytes;
          read_only = λ q. if q == b then true else t.read_only q;
          freed = t.freed;
        }))

  -- The blocks of the list lie outside of the new one, with their layouts and their links.
  Linked-outside :
      (m m' : Bytes) (p a b : ℕ) (xs : List Page)
      → SameBut a b m m'
      → All (λ y. (end_of P y ≤ a) ⊎ (b ≤ y.start)) xs
      → Linked P m p xs
      → Linked P m' p xs
  unfolding Linked
  Linked-outside m m' p a b [] same off r = r
  Linked-outside m m' p a b (x ∷ xs) same (ox, off) (at, nz, r) =
      let outside : (ro_next P x.start + 4 ≤ a) ⊎ (b ≤ ro_next P x.start) = elim ox [
        | inl u ↦ inl (omega arith)
        | inr o ↦ inr (omega arith)
      ] in
      (
        at,
        nz,
        rw (word_at-other m m' a b (ro_next P x.start) same outside)
            (Linked-outside m m' (next_page P m x.start) a b xs same off r),
      )

  layout_outside :
      (m m' : Bytes) (a b : ℕ) (y : Page)
      → SameBut a b m m'
      → (end_of P y ≤ a) ⊎ (b ≤ y.start)
      → SameFrom (y.start + P) (end_of P y) m m'
  layout_outside m m' a b y same (inl under) q from to = same q (inl (omega arith))
  layout_outside m m' a b y same (inr over) q from to = same q (inr (omega arith))

  -- What a call of `libwq_malloc` leaves.
  pub record Malloced (s t : Pagelink) (xs : List Page) (new : Page) : Type 0 where
    pub valid : Valid P t (xs ++ new ∷ [])
    pub zeros : (q : ℕ) → user P new ≤ q → q < user P new + new.size → t.bytes q ≡ 0
    pub others : All (λ y. SameFrom (y.start + P) (end_of P y) s.bytes t.bytes) xs
    pub none_freed : t.freed ≡ s.freed

  new_block :
      (fuel total size b : ℕ) (trace : List ℕ) (s : Pagelink) (xs : List Page)
      → Valid P s xs
      → length trace ≤ 5
      → size < 4294967296
      → P + 36 + size ≤ total
      → length xs ≤ fuel
      → Grants s xs total b
      → (t : Pagelink) × (link_page P fuel b (record {
        head = s.head;
        bytes = prefixed P total trace size b s.bytes;
        read_only = s.read_only;
        freed = s.freed;
      })
          ≡ done tt t)
        × Malloced s t xs (record { start = b; size = size })
  new_block fuel total size b trace s xs v few small room enough g =
      let new : Page = record { start = b; size = size } in
      let m1 = prefixed P total trace size b s.bytes in
      let (intact, same, zeros, no_next) =
        prefixed_lem P total size b trace s.bytes four few small room g.fits in
      let clear =
        All-map (λ y. (end_of P y ≤ b) ⊎ (b + total ≤ y.start)) (Clear P new) xs
          (λ y o. elim o [ inl u ↦ inr u | inr a ↦ inl (omega arith) ]) g.apart in
      let (t, linked, longer, same_links, freed) =
        link_page_lem P four fuel
          (record { head = s.head; bytes = m1; read_only = s.read_only; freed = s.freed }) new xs
          (Linked-outside s.bytes m1 s.head b (b + total) xs same g.apart v.linked) v.apart clear
          g.some_block (omega (arith, g.fits)) no_next enough in
      let kept_new =
        layout_same P m1 t.bytes new xs four
          (All-map (Clear P new) (OffLink P new) xs (Clear-OffLink P new) clear) same_links in
      let others =
        All-combine (λ y. (end_of P y ≤ b) ⊎ (b + total ≤ y.start)) (λ y. All (OffLink P y) xs)
          (λ y. SameFrom (y.start + P) (end_of P y) s.bytes t.bytes) xs
          (λ y o f q from to.
            layout_same P m1 t.bytes y xs four f same_links q from to
            ∙ layout_outside s.bytes m1 b (b + total) y same o q from to)
          g.apart (off_links P xs v.apart) in
      (
        t,
        linked,
        record {
          valid = record {
            linked = longer;
            apart = PagesApart-append P four xs new v.apart clear;
            intact =
                All-append (Intact P t.bytes) xs (new ∷ [])
                  (All-combine (λ y. SameFrom (y.start + P) (end_of P y) s.bytes t.bytes)
                    (Intact P s.bytes) (Intact P t.bytes) xs (λ y. Intact-same P s.bytes t.bytes y)
                    others v.intact)
                  (Intact-same P m1 t.bytes new kept_new intact, tt);
          };
          zeros = λ q from to. kept_new q (omega arith) (omega arith) ∙ zeros q from to;
          others = others;
          none_freed = freed;
        },
      )

  -- `libwq_malloc` of a size that is not 0 and whose pages fit in 32 bits, with fuel for the rounds that
  -- count them and for the list, and with a block that `memalign` gives, returns the user's
  -- pointer into it: what the user gets is zero, the block is the last of the list, the list is
  -- valid, and the bytes of the others are the same.
  pub libwq_malloc_lem :
      (fuel : ℕ) (memalign : ℕ → ℕ) (trace : List ℕ) (size : ℕ) (s : Pagelink) (xs : List Page)
      → Valid P s xs
      → size ≢ 0
      → 36 + size + P + P ≤ 4294967296
      → length trace ≤ 5
      → 36 + size < fuel
      → length xs ≤ fuel
      → ((n : ℕ)
          → page_require_test fuel P size ≡ some n
          → Grants s xs (word (P * n)) (memalign (word (P * n))))
      → (new : Page) × (t : Pagelink) × (new.size ≡ size)
        × (libwq_malloc P fuel memalign trace size s ≡ done (user P new) t)
        × Malloced s t xs new
  libwq_malloc_lem fuel memalign trace size s xs v some_size fits few enough long grants =
      let (k, pages, big, least) = page_require_test_lem fuel P size four (omega arith) enough in
      let g = grants (1 + k) pages in
      let total : word (P * (1 + k)) ≡ P * (1 + k) = omega arith in
      let (t, linked, m) =
        new_block fuel (word (P * (1 + k))) size (memalign (word (P * (1 + k)))) trace s xs v few
          (omega arith) (omega arith) long g in
      (
        record { start = memalign (word (P * (1 + k))); size = size },
        record {
          head = t.head;
          bytes = t.bytes;
          read_only = λ q. if q == memalign (word (P * (1 + k))) then true else t.read_only q;
          freed = t.freed;
        },
        refl,
        generated fuel memalign trace size (1 + k) (memalign (word (P * (1 + k)))) s t some_size
            pages refl g.some_block g.writable linked,
        record {
          valid = record {
            linked = m.valid.linked;
            apart = m.valid.apart;
            intact = m.valid.intact;
          };
          zeros = m.zeros;
          others = m.others;
          none_freed = m.none_freed;
        },
      )
