-- ===== src/Heap/Release.antt =====
-- `libwq_free` on a valid list, and of pointers that are to no block of it.
use workqueue.Platform.Run.{done}
use workqueue.Heap.Unlink.{unlink_loop-absent, SameButLinks}
use workqueue.Heap.Bytes.{SameFrom, Bytes}
use workqueue.Prelude.{
  ◌∙◌, arith, ◌+◌, ◌==◌, All-combine, ◌<◌, ◌≢◌, length, All-map, All-cut, ◌++◌, ◌≡◌, All, List, ◌≤◌,
  ℕ, refl, none, some, false, [], ◌∷◌,
}
use workqueue.Heap.Calls.{return_start, unlink_page, libwq_free, Pagelink, no_registered_page}
use workqueue.Heap.Linked.{end_of, Clear, Linked, PagesApart, Page}
use workqueue.Heap.Blocks.{layout_same, Intact-same, user, OffLink, Intact, Valid}
use workqueue.Heap.Free.{released, off_cut, libwq_free_lem, verdict, Held}

module _ (P : ℕ) (four : 4 ≤ P) where
  PagesApart-cut :
      (xs : List Page) (x : Page) (ys : List Page)
      → PagesApart P (xs ++ x ∷ ys)
      → PagesApart P (xs ++ ys)
  unfolding PagesApart
  PagesApart-cut [] x ys d = d.1
  PagesApart-cut (z ∷ zs) x ys (dz, d) =
      ((All-cut (Clear P z) zs x ys dz).1, PagesApart-cut zs x ys d)

  pub Intact-links :
      (m m' : Bytes) (ls ys : List Page)
      → All (λ y. All (OffLink P y) ls) ys
      → SameButLinks P ls m m'
      → All (Intact P m) ys
      → All (Intact P m') ys
  Intact-links m m' ls ys off same =
      All-combine (λ y. All (OffLink P y) ls) (Intact P m) (Intact P m') ys
        (λ y o. Intact-same P m m' y (layout_same P m m' y ls four o same)) off

  Valid-Held :
      (s : Pagelink) (xs : List Page) (x : Page) (ys : List Page)
      → Valid P s (xs ++ x ∷ ys)
      → Held P four s xs x ys
  Valid-Held s xs x ys v = record {
    linked = v.linked;
    apart = v.apart;
    fits =
        All-map (Intact P s.bytes) (λ y. end_of P y ≤ 4294967296) (xs ++ x ∷ ys) (λ y i. i.fits)
          v.intact;
    size = (All-cut (Intact P s.bytes) xs x ys v.intact).0.size;
  }

  whole : (m : Bytes) (x : Page) → Intact P m x → verdict P m x ≡ none
  unfolding verdict
  whole m x i = rw (i.front, i.tail) refl

  -- `libwq_free` of the user's pointer of any block in a valid list returns; the block is released,
  -- the list is valid and holds the others in their order, and the bytes of the others are the same.
  pub libwq_free-Valid :
      (fuel : ℕ) (s : Pagelink) (xs : List Page) (x : Page) (ys : List Page)
      → Valid P s (xs ++ x ∷ ys)
      → length xs < fuel
      → (t : Pagelink) × (libwq_free P fuel (user P x) s ≡ done none t)
        × Valid P t (xs ++ ys)
        × (t.freed ≡ x.start ∷ s.freed)
        × All (λ y. SameFrom (y.start + P) (end_of P y) s.bytes t.bytes) (xs ++ ys)
  libwq_free-Valid fuel s xs x ys v enough =
      let (t, ends, linked, same, freed) =
        libwq_free_lem P four fuel s xs x ys (Valid-Held s xs x ys v) enough in
      let (own, intact, behind) = All-cut (Intact P s.bytes) xs x ys v.intact in
      let off = (off_cut P four xs x ys v.apart).1 in
      let good = whole s.bytes x own in
      (
        t,
        ends ∙ (λ i. done (good i) t),
        record {
          linked = linked;
          apart = PagesApart-cut xs x ys v.apart;
          intact = Intact-links s.bytes t.bytes xs (xs ++ ys) off same intact;
        },
        freed ∙ (λ i. released (good i) x s.freed),
        All-map (λ y. All (OffLink P y) xs)
            (λ y. SameFrom (y.start + P) (end_of P y) s.bytes t.bytes) (xs ++ ys)
            (λ y o. layout_same P s.bytes t.bytes y xs four o same) off,
      )

  -- A pointer to no block of the list, such as one that is released already, ends the process with
  -- `no_registered_page`, and nothing is changed.
  pub libwq_free-absent :
      (fuel : ℕ) (s : Pagelink) (xs : List Page) (ptr : ℕ)
      → Linked P s.bytes s.head xs
      → ptr ≢ 0
      → All (λ y. y.start ≢ return_start P ptr) xs
      → length xs < fuel
      → libwq_free P fuel ptr s ≡ done (some no_registered_page) s
  unfolding libwq_free unlink_page
  libwq_free-absent fuel s xs ptr r nz a enough =
      let here : (ptr == 0) ≡ false = ground (arith, nz) in
      rw (here, unlink_loop-absent P four fuel s (return_start P ptr) 0 s.head xs r a enough) refl
