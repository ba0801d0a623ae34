-- ===== src/Shared/Calls.antt =====
-- Sp.c: the functions, by their names. `block` is what `libwq_malloc` gives, cleared, or NULL, and
-- `header` is `sizeof(struct sp)`. A loop that is out of fuel is left waiting, and an access
-- through NULL is a fault. A count that is not positive is passed as 0.
use workqueue.Prelude.{
  ◌%◌, ◌+◌, ◌||◌, ◌-◌, ◌&&◌, Option, ◌==◌, not, List, Bool, ℕ, if◌then◌else◌, zero, suc, none, some,
  true, false, ◌∷◌,
}
use workqueue.Platform.Run.{waiting, fault, done, pure, and_then, Cmd, ◌>>◌}
use workqueue.Chains.Store.{put}

-- `_g_sp` with the fields of the blocks, by their addresses, and what was freed, the last first.
pub record Gsp : Type 0 where
  pub use_it : Bool
  pub link : ℕ
  pub next_sp : ℕ → ℕ
  pub ref : ℕ → ℕ
  pub freed : List ℕ

-- `CS_open` succeeds or not.
unfoldable pub sp_using : Bool → Gsp → Gsp
sp_using opened s =
    if not s.use_it && opened
    then record { use_it = true; link = 0; next_sp = s.next_sp; ref = s.ref; freed = s.freed }
    else s

unfoldable pub sp_unused : Gsp → Gsp
sp_unused s =
    if s.use_it
    then record { use_it = false; link = 0; next_sp = s.next_sp; ref = s.ref; freed = s.freed }
    else s

-- `while(sp_block && !sp_block->_next_sp)`
unfoldable pub skip : ℕ → (ℕ → ℕ) → ℕ → Option ℕ
skip zero next p = none
skip (suc fuel) next p =
    let rest = skip fuel next (next p) in
    if p == 0 then some 0 else if next p == 0 then rest else some p

-- The block is cleared, counted and linked.
unfoldable pub link_block : ℕ → ℕ → Cmd Gsp (Unit {0})
unfolding skip
link_block fuel block s =
    if s.link == 0
    then done tt (record {
      use_it = s.use_it;
      link = block;
      next_sp = s.next_sp;
      ref = s.ref;
      freed = s.freed;
    })
    else elim (skip fuel s.next_sp s.link) [
      | none ↦ waiting s
      | some sp_block ↦
          if sp_block == 0
          then fault
          else done tt (record {
            use_it = s.use_it;
            link = s.link;
            next_sp = put s.next_sp sp_block block;
            ref = s.ref;
            freed = s.freed;
          })
    ]

unfoldable pub sp_malloc : ℕ → ℕ → ℕ → ℕ → ℕ → Cmd Gsp ℕ
unfolding link_block
sp_malloc fuel header size refer block s =
    if not s.use_it || size == 0 || refer == 0
    then done 0 s
    else if block == 0
    then done 0 s
    else (link_block fuel block >> pure (block + header)) (record {
      use_it = s.use_it;
      link = s.link;
      next_sp = put s.next_sp block 0;
      ref = put s.ref block refer;
      freed = s.freed;
    })

-- The search of `SP_ref`: the block, or NULL.
unfoldable pub find_block : ℕ → (ℕ → ℕ) → ℕ → ℕ → Option ℕ
find_block zero next sp_ptr p = none
find_block (suc fuel) next sp_ptr p =
    let rest = find_block fuel next sp_ptr (next p) in
    if p == 0 then some 0 else if p == sp_ptr then some p else rest

unfoldable pub sp_ref : ℕ → ℕ → ℕ → Cmd Gsp ℕ
unfolding find_block
sp_ref fuel header spmem s =
    if not s.use_it || spmem == 0
    then done 0 s
    else elim (find_block fuel s.next_sp (spmem - header) s.link) [
      | none ↦ waiting s
      | some sp_block ↦
          if sp_block == 0
          then done spmem s
          else done spmem (record {
            use_it = s.use_it;
            link = s.link;
            next_sp = s.next_sp;
            ref = put s.ref sp_block ((s.ref sp_block + 1) % 4294967296);
            freed = s.freed;
          })
    ]

-- The search of `SP_unref`, which takes the block out of the list that it finds.
unfoldable pub take_out : ℕ → ℕ → ℕ → ℕ → Cmd Gsp Bool
take_out zero sp_ptr prev p s = waiting s
take_out (suc fuel) sp_ptr prev p s =
    let rest = take_out fuel sp_ptr p (s.next_sp p) s in
    if p == 0
    then done false s
    else if p == sp_ptr
    then (if prev == 0
        then done true (record {
          use_it = s.use_it;
          link = s.next_sp p;
          next_sp = s.next_sp;
          ref = s.ref;
          freed = s.freed;
        })
        else done true (record {
          use_it = s.use_it;
          link = s.link;
          next_sp = put s.next_sp prev (s.next_sp p);
          ref = s.ref;
          freed = s.freed;
        }))
    else rest

-- One reference less; the block is freed when none is left.
unfoldable pub count_down : ℕ → Gsp → Gsp
count_down sp_ptr s = if s.ref sp_ptr == 0 then s else record {
  use_it = s.use_it;
  link = s.link;
  next_sp = s.next_sp;
  ref = put s.ref sp_ptr (s.ref sp_ptr - 1);
  freed = if s.ref sp_ptr - 1 == 0 then sp_ptr ∷ s.freed else s.freed;
}

unfoldable pub sp_unref : ℕ → ℕ → ℕ → Cmd Gsp (Unit {0})
unfolding take_out count_down
sp_unref fuel header spmem s =
    if not s.use_it || spmem == 0
    then done tt s
    else and_then (take_out fuel (spmem - header) 0 s.link s)
        (λ found t. done tt (if found then count_down (spmem - header) t else t))
