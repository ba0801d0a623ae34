-- ===== src/Heap/Linking.antt =====
-- `__link_page`: a new block becomes the last of the list.
use workqueue.Heap.Unlink.{put-SameButLinks, relink_lem, relinked, SameButLinks}
use workqueue.Platform.Run.{done}
use workqueue.Prelude.{
  arith, ◌==◌, length, ◌≡◌, All-append, ◌<◌, ◌≢◌, ◌++◌, All, List, ◌≤◌, ℕ, refl, true, false, [],
  ◌∷◌,
}
use workqueue.Heap.Calls.{next_page, set_head, link_page, Pagelink}
use workqueue.Heap.Linked.{Linked-append, Clear-sym, Clear, Linked, PagesApart, Page}

module _ (P : ℕ) (four : 4 ≤ P) where
  pub link_page_lem :
      (fuel : ℕ) (s : Pagelink) (new : Page) (xs : List Page)
      → Linked P s.bytes s.head xs
      → PagesApart P xs
      → All (Clear P new) xs
      → new.start ≢ 0
      → new.start < 4294967296
      → next_page P s.bytes new.start ≡ 0
      → length xs ≤ fuel
      → (t : Pagelink) × (link_page P fuel new.start s ≡ done tt t)
        × Linked P t.bytes t.head (xs ++ new ∷ [])
        × SameButLinks P xs s.bytes t.bytes
        × (t.freed ≡ s.freed)
  unfolding link_page Linked set_head
  link_page_lem fuel s new [] r d c nz small e enough =
      let none_yet : (s.head == 0) ≡ true = ground arith in
      (
        record { head = new.start; bytes = s.bytes; read_only = s.read_only; freed = s.freed },
        rw none_yet refl,
        (refl, nz, e),
        λ q off. refl,
        refl,
      )
  link_page_lem fuel s new (x ∷ xs) r d c nz small e enough =
      let held : (s.head == 0) ≡ false = ground (arith, r.0, r.1) in
      let (l, found, longer, inside) =
        Linked-append P fuel s.bytes s.head new x xs four r d c nz small e (omega arith) in
      (
        relinked P s l.start new.start,
        rw (held, found) (relink_lem P s l.start new.start),
        longer,
        put-SameButLinks P four s.bytes l (x ∷ xs) new.start inside,
        refl,
      )

  pub PagesApart-append :
      (xs : List Page) (new : Page)
      → PagesApart P xs
      → All (Clear P new) xs
      → PagesApart P (xs ++ new ∷ [])
  unfolding PagesApart
  PagesApart-append [] new d c = (tt, tt)
  PagesApart-append (x ∷ xs) new (dx, d) (cx, c) = (
    All-append (Clear P x) xs (new ∷ []) dx (Clear-sym P new x cx, tt),
    PagesApart-append xs new d c,
  )
