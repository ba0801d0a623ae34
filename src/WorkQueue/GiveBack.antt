-- ===== src/WorkQueue/GiveBack.antt =====
-- The first half of `WQ_recv`: the element that the receiver holds goes back to the senders.
use workqueue.Prelude.{
  ℕ, ◌≡◌, refl, sym, ◌∙◌, inl, inr, true, false, some, List, map, arith, Bool-cases, ℕ_discrete,
  get_elem?, get_or, set, length-set, length-map, get_or-set_self, get_or-set_ne, map-set,
  get_elem?-some, get_or-map_of_some, map-set_same, All-set, All-get_elem?,
}
use workqueue.Platform.Run.{Returns, returns}
use workqueue.Platform.Clock.{Timespec}
use workqueue.Platform.Posix.{Posix}
use workqueue.WorkQueue.Slots.{next_cursor, Element, Wq, acknowledge}
use workqueue.WorkQueue.Calls.{give_back}
use workqueue.WorkQueue.Steps.{lock_queue-done, load-done}
use workqueue.WorkQueue.Ring.{next_cursor-lt, slot-next_cursor}
use workqueue.WorkQueue.Invariant.{message, is_signaled, signals, messages, holds, pending, IsValid}

-- The state once the element is given back: nothing is held, and the same messages wait.
pub record GaveBack {os : Posix} (wq w : Wq os) : Type 0 where
  pub valid : IsValid w
  pub unheld : holds w ≡ false
  pub same : pending w ≡ pending wq
  pub ready : os.value w.reader ≡ os.value wq.reader
  pub cap : w.element_length ≡ wq.element_length
  pub width : w.element_1_size ≡ wq.element_1_size

module _ {os : Posix} (wq : Wq os) (v : IsValid wq) (m : os.Mutex) (locked : os.held m ≡ true)
    (e : Element os) (at : get_elem? wq.work_elements wq.head_cursor ≡ some e) where
  open wq use {work_elements, head_cursor, element_length}

  holds_head : holds wq ≡ e.signaled
  holds_head = get_or-map_of_some is_signaled work_elements head_cursor false at

  module _ (s : e.signaled ≡ true) where
    abbrev cleared : List (Element os)
    cleared = set work_elements head_cursor (acknowledge os e)

    signals-cleared : (i : ℕ) → get_or (map is_signaled cleared) i false ≡ false
    unfolding acknowledge
    signals-cleared i =
        let unset : (acknowledge os e).signaled ≡ false = ground arith in
        let size = length-map is_signaled work_elements in
        rw (map-set is_signaled work_elements head_cursor (acknowledge os e), unset)
          (elim (ℕ_discrete i head_cursor) [
            | yes p ↦ rw p (get_or-set_self (signals wq) head_cursor false false (omega arith))
            | no n ↦
                get_or-set_ne (signals wq) head_cursor i false false (λ q. n (sym q)) ∙ v.alone i n
          ])

    messages-cleared : map message cleared ≡ messages wq
    unfolding acknowledge
    messages-cleared =
        map-set_same message work_elements head_cursor e (acknowledge os e) at (ground arith)

    GaveBack-held : GaveBack wq (record wq {
      writer = os.sem_post wq.writer;
      q_sync = os.mutex_unlock m;
      head_cursor = next_cursor head_cursor element_length;
      work_elements = cleared;
    })
    unfolding acknowledge
    GaveBack-held =
        let held : holds wq ≡ true = holds_head ∙ s in
        let clear = signals-cleared (next_cursor head_cursor element_length) in
        record {
          valid = record {
            small = v.small;
            stored = length-set work_elements head_cursor (acknowledge os e) ∙ v.stored;
            head_in = next_cursor-lt element_length head_cursor v.small v.head_in;
            count = ground (arith, os.value-sem_post wq.writer, v.count);
            tail_at = ground (
              arith,
              v.count,
              v.tail_at,
              slot-next_cursor element_length head_cursor (os.value wq.reader) v.small v.head_in,
            );
            free = os.held-mutex_unlock m locked;
            alone = λ i _. signals-cleared i;
            sized =
                All-set _ work_elements head_cursor (acknowledge os e) v.sized
                  (ground (arith, All-get_elem? _ work_elements head_cursor v.sized at));
          };
          unheld = clear;
          same = rw (clear, held, messages-cleared);
          ready = refl;
          cap = refl;
          width = refl;
        }

  GaveBack-unheld : e.signaled ≡ false → GaveBack wq (record wq { q_sync = os.mutex_unlock m })
  GaveBack-unheld s = record {
    valid = record {
      small = v.small;
      stored = v.stored;
      head_in = v.head_in;
      count = v.count;
      tail_at = v.tail_at;
      free = os.held-mutex_unlock m locked;
      alone = v.alone;
      sized = v.sized;
    };
    unheld = holds_head ∙ s;
    same = refl;
    ready = refl;
    cap = refl;
    width = refl;
  }

module _ {os : Posix} (now : Timespec) where
  pub give_back_lem :
      {wq : Wq os} → IsValid wq → Returns (λ _ w. GaveBack wq w) (give_back os now wq)
  unfolding give_back
  give_back_lem {wq} v =
      let (m, locked, h) = lock_queue-done now wq v.free in
      let (e, at) = get_elem?-some wq.work_elements wq.head_cursor (omega arith) in
      rw (locked, load-done now (record wq { q_sync = m }) _ at)
        (elim (Bool-cases e.signaled) [
          | inl s ↦ rw s (returns (GaveBack-held wq v m h e at s))
          | inr s ↦ rw s (returns (GaveBack-unheld wq v m h e at s))
        ])
