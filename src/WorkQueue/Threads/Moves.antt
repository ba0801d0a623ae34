-- ===== src/WorkQueue/Threads/Moves.antt =====
-- Threads that call one queue: where each stands in `WQ_send` or `WQ_recv`, and its moves. A wait
-- with a time limit may end at any time while its semaphore is at zero.
-- The queue, with the messages that were published and those that were handed out, in their order.
use workqueue.WorkQueue.Invariant.{message}
use workqueue.WorkQueue.Mailbox.{Message}
use workqueue.Platform.Counting.{counting}
use workqueue.WorkQueue.Slots.{acknowledge, filled, next_cursor, fill, Element, Wq}
use workqueue.Prelude.{
  ◌++◌, set, replicate, get_elem?, ◌≡◌, ◌≢◌, ℕ, List, Bool, suc, some, true, false, [], ◌∷◌,
}

pub record Memory : Type 0 where
  pub wq : Wq counting
  pub sent : List Message
  pub received : List Message

-- The arguments of `WQ_send`.
pub record Letter : Type 0 where
  pub par : List ℕ
  pub npar : ℕ
  pub block : Bool

pub data Sender : Type 0 where
  idle : Sender
  asking : Letter → Sender  -- at `Platform_semaphore_lock` of `writer`
  locking : Letter → Sender  -- at `Platform_criticalsection_lock`
  copying : Letter → Sender  -- before `memset`
  unlocking : ℕ → Bool → Sender  -- at `Platform_criticalsection_unlock`, with `ack_sema`
  posting : ℕ → Bool → Sender  -- at `Platform_semaphore_unlock` of `reader`
  answering : ℕ → Sender  -- at `Platform_semaphore_lock` of `ack_sema`

pub data Receiver : Type 0 where
  resting : Receiver
  calling : Receiver  -- at the first `Platform_criticalsection_lock`
  giving : Receiver  -- at the test of ELEMENT_FLAGS_SIGNALED
  keeping : Receiver  -- at the unlock before `goto recv`
  given : Receiver  -- at the unlock behind `q_iNext`
  returning : Receiver  -- at `Platform_semaphore_unlock` of `writer`
  waiting : Receiver  -- at the label `recv`
  entering : Receiver  -- at the second `Platform_criticalsection_lock`
  taking : Receiver  -- before `*ppar`
  leaving : Receiver  -- at the last unlock

module _ (m : Memory) where
  open m use {wq}

  abbrev pub with_lock : Bool → Memory
  with_lock b = record m { wq = record wq { q_sync = b } }

  abbrev pub with_writer : ℕ → Memory
  with_writer n = record m { wq = record wq { writer = n } }

  abbrev pub with_reader : ℕ → Memory
  with_reader n = record m { wq = record wq { reader = n } }

  abbrev pub with_cell : ℕ → Element counting → Memory
  with_cell i e = record m { wq = record wq { work_elements = set wq.work_elements i e } }

  -- The slot at the tail is filled, and the cursor moved.
  abbrev pub with_letter : Element counting → Memory
  with_letter e = record {
    wq = record wq {
      work_elements = set wq.work_elements wq.tail_cursor e;
      tail_cursor = next_cursor wq.tail_cursor wq.element_length;
    };
    sent = m.sent ++ (message e ∷ []);
    received = m.received;
  }

  abbrev pub with_given : Element counting → Memory
  with_given e = record m {
    wq = record wq {
      work_elements = set wq.work_elements wq.head_cursor (acknowledge counting e);
      head_cursor = next_cursor wq.head_cursor wq.element_length;
    };
  }

  abbrev pub with_taken : Element counting → Memory
  with_taken e = record {
    wq = record wq {
      work_elements = set wq.work_elements wq.head_cursor (record e { signaled = true });
    };
    sent = m.sent;
    received = m.received ++ (message e ∷ []);
  }

  -- A sender's move.
  pub data Sends : Sender → Memory → Sender → Type 0 where
    call : (l : Letter) → l.npar ≢ 0 → Sends idle m (asking l)
    take_room :
        {l : Letter} (n : ℕ) → wq.writer ≡ suc n → Sends (asking l) (with_writer n) (locking l)
    give_up : {l : Letter} → wq.writer ≡ 0 → Sends (asking l) m idle
    lock : {l : Letter} → wq.q_sync ≡ false → Sends (locking l) (with_lock true) (copying l)
    copy :
        {l : Letter} (e : Element counting) (bytes : List ℕ)
        → get_elem? wq.work_elements wq.tail_cursor ≡ some e
        → fill wq.element_1_size l.par l.npar ≡ some bytes
        → Sends
            (copying l)
            (with_letter (filled counting e bytes l.npar l.block))
            (unlocking wq.tail_cursor l.block)
    unlock : {i : ℕ} {b : Bool} → Sends (unlocking i b) (with_lock false) (posting i b)
    wake : {i : ℕ} → Sends (posting i false) (with_reader (suc wq.reader)) idle
    wake_and_ask : {i : ℕ} → Sends (posting i true) (with_reader (suc wq.reader)) (answering i)
    answer :
        {i : ℕ} (e : Element counting) (n : ℕ)
        → get_elem? wq.work_elements i ≡ some e
        → e.ack ≡ suc n
        → Sends (answering i) (with_cell i (record e { ack = n })) idle

  -- A move of the receiver.
  pub data Receives : Receiver → Memory → Receiver → Type 0 where
    enter_call : Receives resting m calling
    lock_first : wq.q_sync ≡ false → Receives calling (with_lock true) giving
    keep :
        (e : Element counting)
        → get_elem? wq.work_elements wq.head_cursor ≡ some e
        → e.signaled ≡ false
        → Receives giving m keeping
    give :
        (e : Element counting)
        → get_elem? wq.work_elements wq.head_cursor ≡ some e
        → e.signaled ≡ true
        → Receives giving (with_given e) given
    unlock_kept : Receives keeping (with_lock false) waiting
    unlock_given : Receives given (with_lock false) returning
    make_room : Receives returning (with_writer (suc wq.writer)) waiting
    take_unit : (n : ℕ) → wq.reader ≡ suc n → Receives waiting (with_reader n) entering
    stop : wq.reader ≡ 0 → Receives waiting m resting
    lock_second : wq.q_sync ≡ false → Receives entering (with_lock true) taking
    take_slot :
        (e : Element counting)
        → get_elem? wq.work_elements wq.head_cursor ≡ some e
        → Receives taking (with_taken e) leaving
    unlock_last : Receives leaving (with_lock false) resting

pub record System : Type 0 where
  pub memory : Memory
  pub senders : List Sender
  pub receiver : Receiver

pub data Step (s : System) : System → Type 0 where
  sender_moves :
      (i : ℕ) {p q : Sender} {m : Memory}
      → get_elem? s.senders i ≡ some p
      → Sends s.memory p m q
      → Step s (record { memory = m; senders = set s.senders i q; receiver = s.receiver })
  receiver_moves :
      {r : Receiver} {m : Memory}
      → Receives s.memory s.receiver m r
      → Step s (record { memory = m; senders = s.senders; receiver = r })

-- All threads outside of calls, on a queue to which nothing was sent.
abbrev pub start_of : Wq counting → ℕ → System
start_of wq n = record {
  memory = record { wq = wq; sent = []; received = [] };
  senders = replicate n idle;
  receiver = resting;
}

pub data Reach (s : System) : System → Type 0 where
  here : Reach s s
  next : {t u : System} → Reach s t → Step t u → Reach s u
