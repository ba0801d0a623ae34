-- ===== src/Heap/Prefix.antt =====
-- `__generate_page`: what stands in a new block.
use workqueue.Heap.Layout.{page_chks}
use workqueue.Heap.Calls.{
  ro_next, next_page, rw_backtrace_num, rw_frontchks, rw_userblockptr, rw_userblocksize, prefixed,
}
use workqueue.Heap.Bytes.{
  word_at-put_word, put_words-SameBut, clear_zero, clear-SameBut, put_word-SameBut, put_words,
  SameBut, put_word, clear, word_at-other, Bytes, word_at,
}
use workqueue.Prelude.{◌∙◌, arith, ◌≡◌, ◌⊎◌, ◌+◌, ◌<◌, length, ◌≤◌, List, ℕ, refl, inl, inr}
use workqueue.Heap.Blocks.{Intact}

pub word_zero : (m : Bytes) (p : ℕ) → ((q : ℕ) → p ≤ q → q < p + 4 → m q ≡ 0) → word_at m p ≡ 0
unfolding word_at
word_zero m p z =
    rw
      (
        z p (omega arith) (omega arith),
        z (p + 1) (omega arith) (omega arith),
        z (p + 2) (omega arith) (omega arith),
        z (p + 3) (omega arith) (omega arith),
      )
      refl

module _ (P total size b : ℕ) (trace : List ℕ) (m : Bytes) (four : 4 ≤ P) (few : length trace ≤ 5)
    (small : size < 4294967296) (room : P + 36 + size ≤ total) where
  cleared : Bytes
  cleared = clear m b total

  traced : Bytes
  unfolding cleared
  traced = put_words cleared (rw_backtrace_num P b + 4) trace

  counted : Bytes
  unfolding traced
  counted = put_word traced (rw_backtrace_num P b) (length trace)

  sized : Bytes
  unfolding counted
  sized = put_word counted (rw_userblocksize P b) size

  fronted : Bytes
  unfolding sized
  fronted = put_word sized (rw_frontchks P b) page_chks

  written : Bytes
  written = put_word fronted (rw_userblockptr P b + size) page_chks

  sized_lem : word_at fronted (rw_userblocksize P b) ≡ size
  unfolding fronted sized
  sized_lem =
      word_at-other sized fronted (rw_frontchks P b) (rw_frontchks P b + 4) (rw_userblocksize P b)
        (put_word-SameBut sized (rw_frontchks P b) page_chks) (inl (omega arith))
      ∙ word_at-put_word counted (rw_userblocksize P b) size small

  prefixed-written : prefixed P total trace size b m ≡ written
  unfolding prefixed written fronted sized counted traced cleared sized_lem
  prefixed-written = λ i. put_word fronted (rw_userblockptr P b + sized_lem i) page_chks

  tail_other : SameBut (rw_userblockptr P b + size) (rw_userblockptr P b + size + 4) fronted written
  unfolding written
  tail_other = put_word-SameBut fronted (rw_userblockptr P b + size) page_chks

  -- Outside of its prefix and of its last check a block is cleared.
  between :
      (q : ℕ)
      → (q < b + P) ⊎ (rw_userblockptr P b ≤ q)
      → (q < rw_userblockptr P b + size) ⊎ (rw_userblockptr P b + size + 4 ≤ q)
      → written q ≡ cleared q
  unfolding fronted sized counted traced
  between q (inl under) off =
      tail_other q off
      ∙ put_word-SameBut sized (rw_frontchks P b) page_chks q (inl (omega arith))
      ∙ put_word-SameBut counted (rw_userblocksize P b) size q (inl (omega arith))
      ∙ put_word-SameBut traced (rw_backtrace_num P b) (length trace) q (inl (omega arith))
      ∙ put_words-SameBut cleared (rw_backtrace_num P b + 4) trace q (inl (omega arith))
  between q (inr over) off =
      tail_other q off
      ∙ put_word-SameBut sized (rw_frontchks P b) page_chks q (inr (omega arith))
      ∙ put_word-SameBut counted (rw_userblocksize P b) size q (inr (omega arith))
      ∙ put_word-SameBut traced (rw_backtrace_num P b) (length trace) q (inr (omega arith))
      ∙ put_words-SameBut cleared (rw_backtrace_num P b + 4) trace q (inr (omega arith))

  written-SameBut : SameBut b (b + total) m written
  unfolding cleared
  written-SameBut q (inl under) =
      between q (inl (omega arith)) (inl (omega arith)) ∙ clear-SameBut m b total q (inl under)
  written-SameBut q (inr over) =
      between q (inr (omega arith)) (inr (omega arith)) ∙ clear-SameBut m b total q (inr over)

  written-Intact : b + total ≤ 4294967296 → Intact P written (record { start = b; size = size })
  unfolding fronted written
  written-Intact fits =
      let read =
        word_at-other fronted written (rw_userblockptr P b + size)
          (rw_userblockptr P b + size + 4) in
      record {
        fits = omega arith;
        size = read (rw_userblocksize P b) tail_other (inl (omega arith)) ∙ sized_lem;
        front =
            read (rw_frontchks P b) tail_other (inl (omega arith))
            ∙ word_at-put_word sized (rw_frontchks P b) page_chks (omega arith);
        tail = word_at-put_word fronted (rw_userblockptr P b + size) page_chks (omega arith);
      }

  -- The prefix makes a block whole, clears what the user gets and the link, and changes nothing
  -- outside of the block.
  pub prefixed_lem :
      b + total ≤ 4294967296
      → Intact P (prefixed P total trace size b m) (record { start = b; size = size })
        × SameBut b (b + total) m (prefixed P total trace size b m)
        × ((q : ℕ)
            → rw_userblockptr P b ≤ q
            → q < rw_userblockptr P b + size
            → prefixed P total trace size b m q ≡ 0)
        × (next_page P (prefixed P total trace size b m) b ≡ 0)
  unfolding cleared
  prefixed_lem fits = rw prefixed-written (
    written-Intact fits,
    written-SameBut,
    λ q from to. between q (inr from) (inl to) ∙ clear_zero m b total q (omega arith) (omega arith),
    word_zero written (ro_next P b) (λ q from to.
        between q (inl (omega arith)) (inl (omega arith))
        ∙ clear_zero m b total q (omega arith) (omega arith)),
  )
