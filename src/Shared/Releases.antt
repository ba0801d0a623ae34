-- ===== src/Shared/Releases.antt =====
-- The second block of Sp.c, and what releases a block.
use workqueue.Chains.Store.{put_same, put}
use workqueue.Prelude.{
  ◌||◌, not, ◌-◌, if◌then◌else◌, subst, Bool-cases, ◌+◌, arith, ◌≢◌, ◌==◌, ◌≡◌, List, ℕ, zero, suc,
  refl, true, false, inl, inr, [], ◌∷◌,
}
use workqueue.Shared.Calls.{count_down, skip, take_out, sp_unref, link_block, sp_malloc, Gsp}
use workqueue.Shared.Counts.{cleared, calls-AtMostOne, Leaves, AtMostOne, calls, unrefs, SpCall}
use workqueue.Platform.Run.{fault, done, ◌>>◌}

-- `_g_sp` at the start of the program.
abbrev pub sp_start : Gsp
sp_start = record { use_it = false; link = 0; next_sp = λ q. 0; ref = λ q. 0; freed = [] }

-- Whatever calls came before: while a block is in the list, a call of `SP_malloc` with a size and a
-- count that are not 0 that gets its memory reaches through NULL.
pub sp_malloc-second :
    (fuel more header size refer block : ℕ) (cs : List SpCall) (s : Gsp)
    → calls fuel header cs sp_start ≡ done tt s
    → s.use_it ≡ true
    → s.link ≢ 0
    → size ≢ 0
    → refer ≢ 0
    → block ≢ 0
    → sp_malloc (suc (suc more)) header size refer block s ≡ fault
unfolding sp_malloc link_block skip
sp_malloc-second fuel more header size refer block cs s run used held some_size some_refer granted =
    let few : AtMostOne s =
      subst (Leaves AtMostOne) run (calls-AtMostOne fuel header cs sp_start (inl refl)) in
    let ends : s.next_sp s.link ≡ 0 = elim few [ inl z ↦ absurd (held z) | inr z ↦ z ] in
    let last : (put s.next_sp block 0 s.link == 0) ≡ true =
      ground (arith, cleared s.next_sp s.link block ends) in
    let in_list : (s.link == 0) ≡ false = ground (arith, held) in
    let a : (size == 0) ≡ false = ground (arith, some_size) in
    let b : (refer == 0) ≡ false = ground (arith, some_refer) in
    let c : (block == 0) ≡ false = ground (arith, granted) in rw (used, a, b, c, in_list, last) refl

-- Once the list is empty nothing more is released.
unrefs_empty :
    (fuel header k spmem : ℕ) (s : Gsp)
    → s.link ≡ 0
    → unrefs (suc fuel) header k spmem s ≡ done tt s
unfolding unrefs sp_unref take_out
unrefs_empty fuel header zero spmem s e = refl
unrefs_empty fuel header (suc k) spmem s e =
    let null : (s.link == 0) ≡ true = ground (arith, e) in
    elim (Bool-cases (not s.use_it || spmem == 0)) [
      | inl bad ↦ rw bad (unrefs_empty fuel header k spmem s e)
      | inr good ↦ rw (good, null) (unrefs_empty fuel header k spmem s e)
    ]

malloc_empty :
    (fuel header size refer block : ℕ) (s : Gsp)
    → s.use_it ≡ true
    → s.link ≡ 0
    → size ≢ 0
    → refer ≢ 0
    → block ≢ 0
    → sp_malloc (suc fuel) header size refer block s
      ≡ done (block + header) (record {
        use_it = true;
        link = block;
        next_sp = put s.next_sp block 0;
        ref = put s.ref block refer;
        freed = s.freed;
      })
unfolding sp_malloc link_block
malloc_empty fuel header size refer block s used empty some_size some_refer granted =
    let null : (s.link == 0) ≡ true = ground (arith, empty) in
    let a : (size == 0) ≡ false = ground (arith, some_size) in
    let b : (refer == 0) ≡ false = ground (arith, some_refer) in
    let c : (block == 0) ≡ false = ground (arith, granted) in rw (used, a, b, c, null) refl

unref_only :
    (fuel header refer block : ℕ) (next ref : ℕ → ℕ) (freed : List ℕ)
    → refer ≢ 0
    → block ≢ 0
    → next block ≡ 0
    → ref block ≡ refer
    → (t : Gsp) × (sp_unref
          (suc fuel)
          header
          (block + header)
          (record { use_it = true; link = block; next_sp = next; ref = ref; freed = freed })
        ≡ done tt t)
      × (t.link ≡ 0)
      × (t.freed ≡ (if refer == 1 then block ∷ freed else freed))
unfolding sp_unref take_out count_down
unref_only fuel header refer block next ref freed some_refer granted ends counts =
    let pointer : (block + header == 0) ≡ false = ground (arith, granted) in
    let at : block + header - header ≡ block = omega arith in
    let found : (block == block) ≡ true = ground arith in
    let held : (block == 0) ≡ false = ground (arith, granted) in
    let counted_once : (refer == 0) ≡ false = ground (arith, some_refer) in
    let once : (refer - 1 == 0) ≡ (refer == 1) = ground (arith, some_refer) in
    (
      record {
        use_it = true;
        link = next block;
        next_sp = next;
        ref = put ref block (refer - 1);
        freed = if refer - 1 == 0 then block ∷ freed else freed;
      },
      rw (pointer, at, held, found, counts, counted_once) refl,
      ends,
      (λ i. if once i then block ∷ freed else freed),
    )

-- A block that `SP_malloc` makes with a count on an empty list is taken out of the list by the first
-- call of `SP_unref`; any number of these calls, from one on, frees it exactly if the count was 1.
pub sp_unref_lem :
    (fuel header size refer block k : ℕ) (s : Gsp)
    → s.use_it ≡ true
    → s.link ≡ 0
    → size ≢ 0
    → refer ≢ 0
    → block ≢ 0
    → (t : Gsp) × ((sp_malloc (suc fuel) header size refer block
            >> unrefs (suc fuel) header (suc k) (block + header))
          s
        ≡ done tt t)
      × (t.link ≡ 0)
      × (t.freed ≡ (if refer == 1 then block ∷ s.freed else s.freed))
unfolding unrefs
sp_unref_lem fuel header size refer block k s used empty some_size some_refer granted =
    let made =
      malloc_empty fuel header size refer block s used empty some_size some_refer granted in
    let (t, gone, none_left, freed) =
      unref_only fuel header refer block (put s.next_sp block 0) (put s.ref block refer) s.freed
        some_refer granted (put_same s.next_sp block 0) (put_same s.ref block refer) in
    (t, rw (made, gone) (unrefs_empty fuel header k (block + header) t none_left), none_left, freed)
