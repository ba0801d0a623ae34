-- ===== src/WorkQueue/Invariant.antt =====
-- What holds of a work queue between calls, and the mailbox that it stands for.
use workqueue.Prelude.{
  ℕ, ◌+◌, ◌<◌, ◌≡◌, ◌≢◌, Bool, false, none, some, List, [], map, if◌then◌else◌, length, get_or, All,
}
use workqueue.Platform.Codes.{dword}
use workqueue.Platform.Posix.{Posix}
use workqueue.WorkQueue.Slots.{Element, Wq, next_cursor}
use workqueue.WorkQueue.Ring.{slot, window}
use workqueue.WorkQueue.Mailbox.{Message, Mailbox}

abbrev pub blank : Message
blank = record { bytes = []; size = 0 }

abbrev pub size_of : Bool → ℕ
size_of b = if b then 1 else 0

module _ {os : Posix} where
  abbrev pub message : Element os → Message
  message e = record { bytes = e.par; size = e.npar }

  abbrev pub is_signaled : Element os → Bool
  is_signaled e = e.signaled

  abbrev pub signals : Wq os → List Bool
  signals wq = map is_signaled wq.work_elements

  abbrev pub messages : Wq os → List Message
  messages wq = map message wq.work_elements

  -- Whether the receiver holds the element at the head.
  abbrev pub holds : Wq os → Bool
  holds wq = get_or (signals wq) wq.head_cursor false

  -- The cursor of the first message that waits.
  abbrev pub first : Wq os → ℕ
  first wq = if holds wq then next_cursor wq.head_cursor wq.element_length else wq.head_cursor

  abbrev pub pending : Wq os → List Message
  pending wq = window blank wq.element_length (messages wq) (first wq) (os.value wq.reader)

  abbrev pub view : Wq os → Mailbox
  view wq = record {
    held = if holds wq then some (get_or (messages wq) wq.head_cursor blank) else none;
    pending = pending wq;
  }

  -- The semaphores count the slots: free, full, or held by the receiver, who marks the head alone.
  pub record IsValid (wq : Wq os) : Type 0 where
    pub small : wq.element_length < dword
    pub stored : length wq.work_elements ≡ wq.element_length
    pub head_in : wq.head_cursor < wq.element_length
    pub count : size_of (holds wq) + os.value wq.reader + os.value wq.writer ≡ wq.element_length
    pub tail_at :
        wq.tail_cursor
        ≡ slot wq.element_length wq.head_cursor (size_of (holds wq) + os.value wq.reader)
    pub free : os.held wq.q_sync ≡ false
    pub alone : (i : ℕ) → i ≢ wq.head_cursor → get_or (signals wq) i false ≡ false
    pub sized : All (λ (e : Element os). length e.par ≡ wq.element_1_size) wq.work_elements
