-- ===== src/Heap/Calls.antt =====
-- Heap.c: allocation and release. `memalign` gives a block for a number of bytes, or NULL,
-- and `trace` is what `backtrace` finds. A call whose loop is out of fuel is left waiting, and a write
-- to a page that is read-only is a fault. The state is what `_link` holds and the memory.
-- `pagelink`, the bytes of the memory, the pages that `mprotect` made read-only, and what was
-- given to `free`, the last first.
use workqueue.Platform.Run.{waiting, and_then, pure, fault, ◌>>=◌, done, ◌>>◌, Cmd}
use workqueue.Heap.Layout.{page_chks, page_require_test, word}
use workqueue.Heap.Bytes.{put_word, clear, put_words, word_at, Bytes}
use workqueue.Prelude.{
  length, ◌*◌, ◌==◌, if◌then◌else◌, ◌-◌, Bool, ◌+◌, List, Option, ℕ, zero, suc, none, some, true,
  false, [], ◌∷◌,
}

pub record Pagelink : Type 0 where
  pub head : ℕ
  pub bytes : Bytes
  pub read_only : ℕ → Bool
  pub freed : List ℕ

-- What `__remove_exception_handler` prints before it ends the process.
pub data Except : Type 0 where
  null_pointer : Except
  no_registered_page : Except
  broken_head : Except
  broken_tail : Except

module _ (P : ℕ) where
  -- `page_ro_next_address` and its neighbours, of a page.
  abbrev pub ro_next : ℕ → ℕ
  ro_next page = page + P - 4

  abbrev pub rw_backtrace_num : ℕ → ℕ
  rw_backtrace_num page = page + P

  abbrev pub rw_userblocksize : ℕ → ℕ
  rw_userblocksize page = page + P + 4 + 20

  abbrev pub rw_frontchks : ℕ → ℕ
  rw_frontchks page = page + P + 4 + 20 + 4

  abbrev pub rw_userblockptr : ℕ → ℕ
  rw_userblockptr page = page + P + 4 + 20 + 4 + 4

  abbrev pub rw_tailchks : Bytes → ℕ → ℕ
  rw_tailchks m page = rw_userblockptr page + word_at m (rw_userblocksize page)

  -- `page_return_start_address` and its neighbours, of a pointer of the user.
  abbrev pub back : ℕ → ℕ → ℕ
  back ptr n = word (ptr + 4294967296 - n)

  abbrev pub return_start : ℕ → ℕ
  return_start ptr = back ptr (4 + 4 + 20 + 4 + P)

  abbrev pub return_tailchks : Bytes → ℕ → ℕ
  return_tailchks m ptr = word (ptr + word_at m (back ptr 8))

  abbrev pub next_page : Bytes → ℕ → ℕ
  next_page m page = word_at m (ro_next page)

  unfoldable pub modecontrol : ℕ → Bool → Cmd Pagelink (Unit {0})
  modecontrol page flag s = done tt (record {
    head = s.head;
    bytes = s.bytes;
    read_only = λ q. if q == page then flag else s.read_only q;
    freed = s.freed;
  })

  -- `*(int *)page_ro_next_address(page) = v`
  unfoldable pub set_next : ℕ → ℕ → Cmd Pagelink (Unit {0})
  set_next page v s =
      if s.read_only page
      then fault
      else done tt (record {
        head = s.head;
        bytes = put_word s.bytes (ro_next page) v;
        read_only = s.read_only;
        freed = s.freed;
      })

  unfoldable pub set_head : ℕ → Cmd Pagelink (Unit {0})
  set_head page s =
      done tt (record { head = page; bytes = s.bytes; read_only = s.read_only; freed = s.freed })

  -- The link of a page is written between two changes of its mode.
  unfoldable pub relink : ℕ → ℕ → Cmd Pagelink (Unit {0})
  relink page v = modecontrol page false >> set_next page v >> modecontrol page true

  -- The loop of `__link_page`.
  unfoldable pub last_page : ℕ → Bytes → ℕ → Option ℕ
  last_page zero m cur = none
  last_page (suc fuel) m cur =
      let rest = last_page fuel m (next_page m cur) in
      if cur == 0 then some 0 else if next_page m cur == 0 then some cur else rest

  unfoldable pub link_page : ℕ → ℕ → Cmd Pagelink (Unit {0})
  unfolding last_page relink set_head
  link_page fuel page s =
      if s.head == 0
      then set_head page s
      else elim (last_page fuel s.bytes s.head) [ none ↦ waiting s | some cur ↦ relink cur page s ]

  -- The bytes that `__generate_page` writes into a new block.
  unfoldable pub prefixed : ℕ → List ℕ → ℕ → ℕ → Bytes → Bytes
  prefixed total trace size page m =
      let m1 = put_words (clear m page total) (rw_backtrace_num page + 4) trace in
      let m2 = put_word m1 (rw_backtrace_num page) (length trace) in
      let m3 = put_word m2 (rw_userblocksize page) size in
      let m4 = put_word m3 (rw_frontchks page) page_chks in
      put_word m4 (rw_tailchks m4 page) page_chks

  unfoldable pub set_prefix : ℕ → List ℕ → ℕ → ℕ → Cmd Pagelink (Unit {0})
  unfolding prefixed
  set_prefix total trace size page s =
      if s.read_only page
      then fault
      else done tt (record {
        head = s.head;
        bytes = prefixed total trace size page s.bytes;
        read_only = s.read_only;
        freed = s.freed;
      })

  unfoldable pub generate_page : ℕ → (ℕ → ℕ) → List ℕ → ℕ → Cmd Pagelink ℕ
  unfolding page_require_test set_prefix link_page modecontrol
  generate_page fuel memalign trace size s =
      if size == 0 then done 0 s else elim (page_require_test fuel P size) [
        | none ↦ waiting s
        | some npage_block ↦
            let total = word (P * npage_block) in
            let page_ptr = memalign total in
            if page_ptr == 0
            then done 0 s
            else and_then (set_prefix total trace size page_ptr s)
                (λ _. link_page fuel page_ptr >> modecontrol page_ptr true >> pure page_ptr)
      ]

  unfoldable pub libwq_malloc : ℕ → (ℕ → ℕ) → List ℕ → ℕ → Cmd Pagelink ℕ
  unfolding generate_page
  libwq_malloc fuel memalign trace size = generate_page fuel memalign trace size >>= λ page.
      pure (if page == 0 then 0 else rw_userblockptr page)

  -- The loop of `__unlink_page`, with whether it finds the page.
  unfoldable pub unlink_loop : ℕ → ℕ → ℕ → ℕ → Cmd Pagelink Bool
  unfolding relink set_head
  unlink_loop zero start pre cur s = waiting s
  unlink_loop (suc fuel) start pre cur s =
      let rest = unlink_loop fuel start cur (next_page s.bytes cur) s in
      if cur == 0
      then done false s
      else if cur == start
      then and_then
          (if pre == 0
            then set_head (next_page s.bytes cur) s
            else relink pre (next_page s.bytes cur) s)
          (λ _. pure true)
      else rest

  unfoldable pub unlink_page : ℕ → ℕ → Cmd Pagelink Bool
  unfolding unlink_loop
  unlink_page fuel ptr_usr s = unlink_loop fuel (return_start ptr_usr) 0 s.head s

  unfoldable pub free_block : ℕ → Cmd Pagelink (Unit {0})
  free_block page s =
      done tt
        (record { head = s.head; bytes = s.bytes; read_only = s.read_only; freed = page ∷ s.freed })

  -- The checks of a block that is found in the list.
  unfoldable pub except_of : ℕ → Bytes → Option Except
  except_of ptr_usr m =
      if word_at m (back ptr_usr 4) == page_chks
      then (if word_at m (return_tailchks m ptr_usr) == page_chks then none else some broken_tail)
      else some broken_head

  -- `__remove_page`, with the exception that it ends the process with, if any.
  unfoldable pub libwq_free : ℕ → ℕ → Cmd Pagelink (Option Except)
  unfolding unlink_page except_of modecontrol free_block
  libwq_free fuel ptr_usr s =
      if ptr_usr == 0
      then done (some null_pointer) s
      else and_then (unlink_page fuel ptr_usr s) (λ found t.
        if found
        then elim (except_of ptr_usr t.bytes) [
          | some except ↦ done (some except) t
          | none ↦
              (modecontrol (return_start ptr_usr) false
                  >> free_block (return_start ptr_usr)
                  >> pure none)
                t
        ]
        else done (some no_registered_page) t)

unfoldable pub libwq_heap_testinit : Bytes → Pagelink
libwq_heap_testinit m = record { head = 0; bytes = m; read_only = λ q. false; freed = [] }
