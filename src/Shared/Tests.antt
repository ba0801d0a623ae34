-- ===== src/Shared/Tests.antt =====
-- Runs at concrete inputs.
use workqueue.Shared.Releases.{sp_unref_lem, sp_start}
use workqueue.Chains.Store.{put}
use workqueue.Prelude.{◌==◌, arith, if◌then◌else◌, ◌+◌, ◌≡◌, refl, true, [], ◌∷◌}
use workqueue.Shared.Calls.{link_block, sp_using, sp_malloc, Gsp}
use workqueue.Shared.Counts.{unrefs, calls, using, malloc}
use workqueue.Platform.Run.{done, ◌>>◌}

-- A block is in the list.
abbrev one_block : Gsp
one_block = record {
  use_it = true;
  link = 4096;
  next_sp = put (λ q. 0) 4096 0;
  ref = put (λ q. 0) 4096 1;
  freed = [];
}

one_call : calls 3 8 (using true ∷ malloc 16 1 4096 ∷ []) sp_start ≡ done tt one_block
unfolding calls sp_using sp_malloc link_block
one_call = refl

abbrev empty_list : Gsp
empty_list = record { use_it = true; link = 0; next_sp = λ q. 0; ref = λ q. 0; freed = [] }

sp_unref_lem_example :
    (t : Gsp) × ((sp_malloc 3 8 16 2 4096 >> unrefs 3 8 4 (4096 + 8)) empty_list ≡ done tt t)
    × (t.link ≡ 0)
    × (t.freed ≡ (if 2 == 1 then 4096 ∷ [] else []))
sp_unref_lem_example =
    sp_unref_lem 2 8 16 2 4096 3 empty_list refl refl (omega arith) (omega arith) (omega arith)
