-- ===== src/WorkQueue/Threads/Invariant.antt =====
-- Every move keeps the counts.
use workqueue.WorkQueue.Ring.{length-window}
use workqueue.WorkQueue.Mailbox.{Mailbox, Message}
use workqueue.Platform.Counting.{counting}
use workqueue.WorkQueue.Slots.{Wq, Element}
use workqueue.WorkQueue.Invariant.{
  first, messages, blank, pending, holds, view, is_signaled, IsValid, size_of,
}
use workqueue.WorkQueue.Threads.Cells.{Ring, Ring-take, Ring-give, Ring-answer, held_at, Ring-copy}
use workqueue.WorkQueue.Threads.Pool.{weigh-le, weigh-set, weigh}
use workqueue.WorkQueue.Threads.Counts.{
  IsClear, inside_call, owes_room, owns_unit, inside, owes_unit, owns_room, Inv,
}
use workqueue.Prelude.{
  sym, length, if◌then◌else◌, ◌∙◌, subst, get_or-map_of_some, ◌≢◌, ap, replicate, zero, none, [],
  arith, Bool, refl, true, false, ◌+◌, ◌≤◌, set, ◌≡◌, get_elem?, ℕ, List, suc, some,
}
use workqueue.WorkQueue.Threads.Moves.{
  start_of, Step, Reach, System, Receives, Sends, Receiver, Sender, Memory, call, take_room,
  give_up, lock, copy, unlock, wake, wake_and_ask, answer, enter_call, lock_first, keep, give,
  unlock_kept, unlock_given, make_room, take_unit, stop, lock_second, take_slot, unlock_last, idle,
  resting, sender_moves, receiver_moves, here, next,
}

-- What the change of one sender from p to q does to the sums.
record Change (pool : List Sender) (i : ℕ) (p q : Sender) : Type 0 where
  rooms : weigh owns_room (set pool i q) + owns_room p ≡ weigh owns_room pool + owns_room q
  units : weigh owes_unit (set pool i q) + owes_unit p ≡ weigh owes_unit pool + owes_unit q
  locks : weigh inside (set pool i q) + inside p ≡ weigh inside pool + inside q

change : (pool : List Sender) (i : ℕ) (p q : Sender) → get_elem? pool i ≡ some p → Change pool i p q
change pool i p q at = record {
  rooms = weigh-set owns_room pool i p q at;
  units = weigh-set owes_unit pool i p q at;
  locks = weigh-set inside pool i p q at;
}

pub size_of-le : (b : Bool) → size_of b ≤ 1
size_of-le b = ground arith

-- The invariant after a move that leaves the slots, the cursors and the log alone.
kept :
    {m : Memory} {pool : List Sender} {r : Receiver} (inv : Inv m pool r)
    → (w n : ℕ) (b : Bool) (pool' : List Sender) (r' : Receiver)
    → inv.waits ≡ owns_unit r' + n + weigh owes_unit pool'
    → w
        + weigh owns_room pool'
        + size_of (held_at m.wq.work_elements m.wq.head_cursor)
        + inv.waits
        + owes_room r'
      ≡ m.wq.element_length
    → weigh inside pool' + inside_call r' ≡ size_of b
    → IsClear r' (held_at m.wq.work_elements m.wq.head_cursor)
    → Inv (record m { wq = record m.wq { writer = w; reader = n; q_sync = b } }) pool' r'
kept inv w n b pool' r' units rooms locks clear = record {
  waits = inv.waits;
  ring = inv.ring;
  units = units;
  rooms = rooms;
  lock = locks;
  clear = clear;
}

positive : (n : ℕ) → n ≢ 0 → (k : ℕ) × (n ≡ suc k)
positive zero h = absurd (h refl)
positive (suc k) h = (k, refl)

held_none :
    (cells : List (Element counting)) (head : ℕ) (e : Element counting)
    → get_elem? cells head ≡ some e
    → e.signaled ≡ false
    → held_at cells head ≡ false
held_none cells head e at unmarked = get_or-map_of_some is_signaled cells head false at ∙ unmarked

module _ {m : Memory} {pool : List Sender} {r : Receiver} (inv : Inv m pool r) (i : ℕ) where
  open m.wq use {writer, reader, q_sync}

  same :
      {p q : Sender} (w n : ℕ) (b : Bool)
      → Change pool i p q
      → w + owns_room q ≡ writer + owns_room p
      → n + owes_unit q ≡ reader + owes_unit p
      → size_of b + inside p ≡ size_of q_sync + inside q
      → owns_room p ≤ weigh owns_room pool
      → Inv (record m { wq = record m.wq { writer = w; reader = n; q_sync = b } }) (set pool i q) r
  same w n b c e f g small =
      kept inv w n b _ _ (omega (arith, inv.units, c.units, f))
        (omega (arith, inv.rooms, c.rooms, e, small)) (omega (arith, inv.lock, c.locks, g))
        inv.clear

  Sends-Inv :
      {m' : Memory} {p q : Sender}
      → Sends m p m' q
      → get_elem? pool i ≡ some p
      → Inv m' (set pool i q) r
  Sends-Inv {m'} {p} {q} mv at =
      go mv (change pool i p q at) (weigh-le owns_room pool i p at) (weigh-le inside pool i p at)
    where
      go :
          {n' : Memory} {a b : Sender}
          → Sends m a n' b
          → Change pool i a b
          → owns_room a ≤ weigh owns_room pool
          → inside a ≤ weigh inside pool
          → Inv n' (set pool i b) r
      go (call l some_bytes) c rm lk = same writer reader q_sync c refl refl refl rm
      go (take_room n e) c rm lk = same n reader q_sync c (omega arith) refl refl rm
      go (give_up e) c rm lk = same writer reader q_sync c refl refl refl rm
      go (lock e) c rm lk = same writer reader true c refl refl (rw e refl) rm
      go (copy e bytes at full) c rm lk =
          let (ring, still) = Ring-copy inv.ring e bytes _ _ at (omega (arith, inv.rooms)) in
          record {
            waits = suc inv.waits;
            ring = ring;
            units = omega (arith, inv.units, c.units);
            rooms = rw still (omega (arith, inv.rooms, c.rooms));
            lock = omega (arith, inv.lock, c.locks);
            clear = rw still inv.clear;
          }
      go unlock c rm lk =
          same writer reader false c refl refl (omega (arith, inv.lock, lk, size_of-le q_sync)) rm
      go wake c rm lk = same writer (suc reader) q_sync c refl (omega arith) refl rm
      go wake_and_ask c rm lk = same writer (suc reader) q_sync c refl (omega arith) refl rm
      go (answer {i = j} e n at one) c rm lk =
          let (ring, still) = Ring-answer inv.ring j e n at in
          record {
            waits = inv.waits;
            ring = ring;
            units = omega (arith, inv.units, c.units);
            rooms = rw still (omega (arith, inv.rooms, c.rooms));
            lock = omega (arith, inv.lock, c.locks);
            clear = rw still inv.clear;
          }

  Receives-Inv : {m' : Memory} {r' : Receiver} → Receives m r m' r' → Inv m' pool r'
  Receives-Inv mv = go inv mv
    where
      go : {n' : Memory} {a b : Receiver} → Inv m pool a → Receives m a n' b → Inv n' pool b
      go v enter_call =
          kept v writer reader q_sync _ _ (omega (arith, v.units)) (omega (arith, v.rooms))
            (omega (arith, v.lock, size_of-le q_sync)) tt
      go v (lock_first e) =
          kept v writer reader true _ _ (omega (arith, v.units)) (omega (arith, v.rooms))
            (omega (arith, v.lock, ap size_of e)) tt
      go v (keep e at unmarked) =
          kept v writer reader q_sync _ _ (omega (arith, v.units)) (omega (arith, v.rooms))
            (omega (arith, v.lock, size_of-le q_sync))
            (held_none m.wq.work_elements m.wq.head_cursor e at unmarked)
      go v (give e at marked) =
          let (ring, clear, holds) = Ring-give v.ring e at marked in
          record {
            waits = v.waits;
            ring = ring;
            units = omega (arith, v.units);
            rooms = rw clear (omega (arith, v.rooms, ap size_of holds));
            lock = omega (arith, v.lock);
            clear = clear;
          }
      go v unlock_kept =
          kept v writer reader false _ _ (omega (arith, v.units)) (omega (arith, v.rooms))
            (omega (arith, v.lock, size_of-le q_sync)) v.clear
      go v unlock_given =
          kept v writer reader false _ _ (omega (arith, v.units)) (omega (arith, v.rooms))
            (omega (arith, v.lock, size_of-le q_sync)) v.clear
      go v make_room =
          kept v (suc writer) reader q_sync _ _ (omega (arith, v.units)) (omega (arith, v.rooms))
            (omega (arith, v.lock, size_of-le q_sync)) v.clear
      go v (take_unit n e) =
          kept v writer n q_sync _ _ (omega (arith, v.units)) (omega (arith, v.rooms))
            (omega (arith, v.lock, size_of-le q_sync)) v.clear
      go v (stop e) =
          kept v writer reader q_sync _ _ (omega (arith, v.units)) (omega (arith, v.rooms))
            (omega (arith, v.lock, size_of-le q_sync)) tt
      go v (lock_second e) =
          kept v writer reader true _ _ (omega (arith, v.units)) (omega (arith, v.rooms))
            (omega (arith, v.lock, ap size_of e)) v.clear
      go v (take_slot e at) =
          let (k, one_more) = positive v.waits (omega (arith, v.units)) in
          let (ring, holds) =
            Ring-take
              (subst
                (Ring m.wq.element_length m.wq.head_cursor m.wq.tail_cursor m.wq.work_elements
                  m.sent m.received)
                one_more v.ring)
              e at v.clear (omega (arith, v.rooms)) in
          record {
            waits = k;
            ring = ring;
            units = omega (arith, v.units);
            rooms = rw holds (omega (arith, v.rooms, ap size_of v.clear));
            lock = omega (arith, v.lock);
            clear = tt;
          }
      go v unlock_last =
          kept v writer reader false _ _ (omega (arith, v.units)) (omega (arith, v.rooms))
            (omega (arith, v.lock, size_of-le q_sync)) tt

-- Every step keeps the invariant.
pub Step-Inv :
    {s t : System}
    → Step s t
    → Inv s.memory s.senders s.receiver
    → Inv t.memory t.senders t.receiver
Step-Inv (sender_moves i at mv) inv = Sends-Inv inv i mv at
Step-Inv (receiver_moves mv) inv = Receives-Inv inv 0 mv

pub Reach-Inv :
    {s t : System}
    → Inv s.memory s.senders s.receiver
    → Reach s t
    → Inv t.memory t.senders t.receiver
Reach-Inv inv here = inv
Reach-Inv inv (next r st) = Step-Inv st (Reach-Inv inv r)

Sends-cap :
    {m m' : Memory} {p q : Sender} → Sends m p m' q → m'.wq.element_length ≡ m.wq.element_length
Sends-cap (call l h) = refl
Sends-cap mv = refl

Receives-cap :
    {m m' : Memory} {a b : Receiver}
    → Receives m a m' b
    → m'.wq.element_length ≡ m.wq.element_length
Receives-cap enter_call = refl
Receives-cap mv = refl

-- The number of slots never changes.
pub Reach-cap : {s t : System} → Reach s t → t.memory.wq.element_length ≡ s.memory.wq.element_length
Reach-cap here = refl
Reach-cap (next r (sender_moves i at mv)) = Sends-cap mv ∙ Reach-cap r
Reach-cap (next r (receiver_moves mv)) = Receives-cap mv ∙ Reach-cap r

replicate-idle : (w : Sender → ℕ) (n : ℕ) → w idle ≡ 0 → weigh w (replicate n idle) ≡ 0
unfolding weigh
replicate-idle w zero e = refl
replicate-idle w (suc n) e = omega (arith, replicate-idle w n e)

unheld_of : (h : Bool) (x : Message) → (if h then some x else none) ≡ none → h ≡ false
unheld_of true x e = cc
unheld_of false x e = refl

-- A valid queue that holds nothing.
pub start_of-Inv :
    (wq : Wq counting) (n : ℕ)
    → IsValid wq
    → view wq ≡ record { held = none; pending = [] }
    → Inv (start_of wq n).memory (start_of wq n).senders resting
start_of-Inv wq n v empty =
    let unheld : holds wq ≡ false =
      unheld_of (holds wq) _ (ap (λ (box : Mailbox). box.held) empty) in
    let none_wait : length (pending wq) ≡ 0 = ap (λ (box : Mailbox). length box.pending) empty in
    let no_units : wq.reader ≡ 0 =
      sym (length-window blank wq.element_length (messages wq) (first wq) wq.reader) ∙ none_wait in
    record {
      waits = 0;
      ring = record {
        small = v.small;
        stored = v.stored;
        head_in = v.head_in;
        tail_at = rw unheld (v.tail_at ∙ rw (unheld, no_units) refl);
        alone = v.alone;
        log = refl;
      };
      units = omega (arith, no_units, replicate-idle owes_unit n refl);
      rooms = omega (arith, v.count, no_units, replicate-idle owns_room n refl);
      lock = omega (arith, ap size_of v.free, replicate-idle inside n refl);
      clear = tt;
    }
