-- ===== src/Heap/Tests.antt =====
-- Runs at concrete inputs, with pages of 4096 bytes.
use workqueue.Heap.Release.{libwq_free-Valid}
use workqueue.Heap.Unlink.{SameButLinks}
use workqueue.Platform.Run.{done}
use workqueue.Heap.Bytes.{SameFrom, Bytes, word_at, clear, put_words, put_word}
use workqueue.Heap.Layout.{page_require_test_lem, word, rw_pages, page_require_test}
use workqueue.Prelude.{
  ◌<◌, ◌*◌, All, ◌≤◌, arith, ◌+◌, ◌==◌, ℕ, ◌≡◌, refl, none, some, false, inl, [], ◌∷◌,
}
use workqueue.Heap.Calls.{ro_next, libwq_malloc, prefixed, libwq_free, Pagelink, broken_tail}
use workqueue.Heap.Linked.{end_of, PagesApart, Linked, Page}
use workqueue.Heap.Blocks.{user, Intact, Valid}
use workqueue.Heap.Free.{libwq_free_lem, released, verdict, Held}
use workqueue.Heap.Malloc.{libwq_malloc_lem, Grants, Malloced}

abbrev first : Page
first = record { start = 8192; size = 10 }

abbrev second : Page
second = record { start = 16384; size = 20 }

-- Two blocks, one behind the other.
abbrev two_bytes : Bytes
unfolding prefixed put_words put_word clear word_at
two_bytes =
    put_word (prefixed 4096 8192 [] 20 16384 (prefixed 4096 8192 (77 ∷ []) 10 8192 (λ q. 0)))
      (ro_next 4096 8192) 16384

abbrev two : Pagelink
two = record { head = 8192; bytes = two_bytes; read_only = λ q. q == 8192; freed = [] }

first-Intact : Intact 4096 two_bytes first
unfolding prefixed put_words put_word clear word_at
first-Intact = record { fits = omega arith; size = refl; front = refl; tail = refl }

second-Intact : Intact 4096 two_bytes second
unfolding prefixed put_words put_word clear word_at
second-Intact = record { fits = omega arith; size = refl; front = refl; tail = refl }

two-Valid : Valid 4096 two (first ∷ second ∷ [])
unfolding prefixed put_words put_word clear word_at Linked PagesApart
two-Valid = record {
  linked = (refl, omega arith, (refl, omega arith, refl));
  apart = ((inl (omega arith), tt), (tt, tt));
  intact = (first-Intact, (second-Intact, tt));
}

page_require_test_lem_example :
    (k : ℕ) × (page_require_test 5000 4096 4061 ≡ some (1 + k))
    × (36 + 4061 ≤ k * 4096)
    × (k * 4096 < 36 + 4061 + 4096)
page_require_test_lem_example =
    page_require_test_lem 5000 4096 4061 (omega arith) (omega arith) (omega arith)

-- The overrun of the first block by the byte behind it.
abbrev overrun : Pagelink
unfolding put_word
overrun = record {
  head = 8192;
  bytes = put_word two_bytes (user 4096 first + 10) 0;
  read_only = λ q. false;
  freed = [];
}

overrun-Held : Held 4096 (omega arith) overrun [] first (second ∷ [])
unfolding prefixed put_words put_word clear word_at Linked PagesApart
overrun-Held = record {
  linked = (refl, omega arith, (refl, omega arith, refl));
  apart = ((inl (omega arith), tt), (tt, tt));
  fits = (omega arith, (omega arith, tt));
  size = refl;
}

libwq_free_lem_example :
    (t : Pagelink) × (libwq_free 4096 5 (user 4096 first) overrun
      ≡ done (verdict 4096 overrun.bytes first) t)
    × Linked 4096 t.bytes t.head (second ∷ [])
    × SameButLinks 4096 [] overrun.bytes t.bytes
    × (t.freed ≡ released (verdict 4096 overrun.bytes first) first [])
unfolding overrun
libwq_free_lem_example =
    libwq_free_lem 4096 (omega arith) 5 overrun [] first (second ∷ []) overrun-Held (omega arith)

overrun_found : verdict 4096 overrun.bytes first ≡ some broken_tail
unfolding verdict prefixed put_words put_word clear word_at
overrun_found = refl

libwq_free-Valid_example :
    (t : Pagelink) × (libwq_free 4096 5 (user 4096 second) two ≡ done none t)
    × Valid 4096 t (first ∷ [])
    × (t.freed ≡ second.start ∷ [])
    × All (λ y. SameFrom (y.start + 4096) (end_of 4096 y) two.bytes t.bytes) (first ∷ [])
libwq_free-Valid_example =
    libwq_free-Valid 4096 (omega arith) 5 two (first ∷ []) second [] two-Valid (omega arith)

-- A block of two pages behind the two.
two_pages : (n : ℕ) → page_require_test 100 4096 30 ≡ some n → n ≡ 2
unfolding page_require_test rw_pages
two_pages n e = ground (arith, e)

third-Grants :
    (n : ℕ)
    → page_require_test 100 4096 30 ≡ some n
    → Grants 4096 (omega arith) two (first ∷ second ∷ []) (word (4096 * n)) 24576
third-Grants n e =
    let pages = two_pages n e in
    record {
      some_block = omega arith;
      fits = omega (arith, pages);
      writable = refl;
      apart = (inl (omega arith), (inl (omega arith), tt));
    }

libwq_malloc_lem_example :
    (new : Page) × (t : Pagelink) × (new.size ≡ 30)
    × (libwq_malloc 4096 100 (λ n. 24576) (5 ∷ 6 ∷ []) 30 two ≡ done (user 4096 new) t)
    × Malloced 4096 (omega arith) two t (first ∷ second ∷ []) new
libwq_malloc_lem_example =
    libwq_malloc_lem 4096 (omega arith) 100 (λ n. 24576) (5 ∷ 6 ∷ []) 30 two (first ∷ second ∷ [])
      two-Valid (omega arith) (omega arith) (omega arith) (omega arith) (omega arith) third-Grants
