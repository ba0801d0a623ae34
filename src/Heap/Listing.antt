-- ===== src/Heap/Listing.antt =====
-- `print_linked_page`: what is still allocated.
use workqueue.Heap.Layout.{page_chks, word}
use workqueue.Heap.Bytes.{word_at, Bytes}
use workqueue.Prelude.{
  with_some, if◌then◌else◌, Option, ◌∙◌, ◌==◌, arith, map, ◌≡◌, All, ◌<◌, length, ◌+◌, List, ℕ,
  zero, suc, refl, none, some, false, [], ◌∷◌,
}
use workqueue.Heap.Calls.{
  broken_head, broken_tail, rw_userblockptr, rw_tailchks, rw_frontchks, rw_userblocksize, Except,
  next_page, Pagelink,
}
use workqueue.Heap.Linked.{Linked, Page}
use workqueue.Heap.Blocks.{user, Intact, Valid}

-- `print_linked_page`: the blocks it lists, with address and size, the total size, and the exception
-- that it ends the process with, if any.
pub record Listing : Type 0 where
  pub except : Option Except
  pub blocks : List (ℕ × ℕ)
  pub total : ℕ

module _ (P : ℕ) where
  unfoldable pub print_from : ℕ → Bytes → ℕ → ℕ → Option Listing
  print_from zero m cur total = none
  print_from (suc fuel) m cur total =
      let size = word_at m (rw_userblocksize P cur) in
      let rest = print_from fuel m (next_page P m cur) (word (total + size)) in
      if cur == 0
      then some (record { except = none; blocks = []; total = total })
      else if word_at m (rw_frontchks P cur) == page_chks
      then (if word_at m (rw_tailchks P m cur) == page_chks
          then with_some rest (λ l. some (record {
            except = l.except;
            blocks = (rw_userblockptr P cur, size) ∷ l.blocks;
            total = l.total;
          }))
          else some (record { except = some broken_tail; blocks = []; total = total }))
      else some (record { except = some broken_head; blocks = []; total = total })

  unfoldable pub print_linked_page : ℕ → Pagelink → Option Listing
  unfolding print_from
  print_linked_page fuel s = print_from fuel s.bytes s.head 0

abbrev pub sizes : List Page → ℕ
sizes [] = 0
sizes (x ∷ xs) = x.size + sizes xs

module _ (P : ℕ) where
  print_from-Linked :
      (fuel : ℕ) (m : Bytes) (p total : ℕ) (xs : List Page)
      → Linked P m p xs
      → All (Intact P m) xs
      → length xs < fuel
      → total < 4294967296
      → print_from P fuel m p total
        ≡ some (record {
          except = none;
          blocks = map (λ x. (user P x, x.size)) xs;
          total = word (total + sizes xs);
        })
  unfolding print_from Linked
  print_from-Linked zero m p total xs r i enough small = absurd (omega arith)
  print_from-Linked (suc fuel) m p total [] r i enough small =
      let all : total ≡ word (total + 0) = omega arith in
      rw r (λ i. some (record { except = none; blocks = []; total = all i }))
  print_from-Linked (suc fuel) m p total (x ∷ xs) (at, nz, r) (i, rest) enough small =
      let here : (x.start == 0) ≡ false = ground arith in
      let sum : word (word (total + x.size) + sizes xs) ≡ word (total + (x.size + sizes xs)) =
        omega arith in
      rw
        (
          at,
          here,
          i.size,
          i.front,
          i.tail,
          print_from-Linked fuel m (next_page P m x.start) (word (total + x.size)) xs r rest
              (omega arith) (omega arith),
          sum,
        )
        refl

  -- The listing of a valid list, with enough fuel, ends with no exception and names exactly the blocks
  -- of the list, by the user's pointer and the size asked for, in their order, with the sum of
  -- the sizes in 32 bits.
  pub print_linked_page_lem :
      (fuel : ℕ) (s : Pagelink) (xs : List Page)
      → Valid P s xs
      → length xs < fuel
      → print_linked_page P fuel s
        ≡ some (record {
          except = none;
          blocks = map (λ x. (user P x, x.size)) xs;
          total = word (sizes xs);
        })
  unfolding print_linked_page
  print_linked_page_lem fuel s xs v enough =
      let sum : word (0 + sizes xs) ≡ word (sizes xs) = omega arith in
      print_from-Linked fuel s.bytes s.head 0 xs v.linked v.intact enough (omega arith) ∙ (λ i.
        some (record { except = none; blocks = map (λ x. (user P x, x.size)) xs; total = sum i }))
