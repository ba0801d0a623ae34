-- ===== src/WorkQueue/Send.antt =====
-- `WQ_send`: the caller's block is copied into the slot at the tail, and the receiver is woken.
use workqueue.WorkQueue.Ring.{window-set, next_cursor-slot, next_cursor-lt, slot-next_cursor, slot}
use workqueue.WorkQueue.Mailbox.{Message}
use workqueue.WorkQueue.Invariant.{
  size_of, blank, is_signaled, message, pending, signals, holds, view, messages, first, IsValid,
}
use workqueue.Prelude.{
  inl, inr, Bool-cases, refl, All-set, ap, length-map, ◌+◌, [], get_or-set_ne, ◌∷◌, map-set, ◌∙◌,
  get_or, set, map-set_same, length-set, length-replicate, Bool, get_elem?, length-take,
  length-append, arith, some, ◌-◌, true, suc, none, length, replicate, ◌<◌, ◌++◌, ◌≡◌, ◌≤◌, take,
  List, ℕ,
}
use workqueue.Platform.Posix.{Posix}
use workqueue.WorkQueue.Slots.{filled, next_cursor, Element, Wq, fill}

-- The message that a caller's block becomes in a slot of `size` bytes.
abbrev pub sent : ℕ → List ℕ → ℕ → Message
sent size par npar = record { bytes = take npar par ++ replicate (size - npar) 0; size = npar }

pub fill-some :
    (size : ℕ) (par : List ℕ) (npar : ℕ)
    → npar ≤ size
    → npar ≤ length par
    → (fill size par npar ≡ some (sent size par npar).bytes)
      × (length (sent size par npar).bytes ≡ size)
unfolding fill
fill-some size par npar fits read = (
  ground arith,
  omega (
    arith,
    length-append (take npar par) (replicate (size - npar) 0),
    length-take npar par read,
    length-replicate {A = ℕ} (size - npar) 0,
  ),
)

pub fill-none : (size : ℕ) (par : List ℕ) (npar : ℕ) → size < npar → fill size par npar ≡ none
unfolding fill
fill-none size par npar over = ground arith

-- A valid queue as `WQ_send` finds it behind the writer semaphore.
module _ {os : Posix} (wq : Wq os) (v : IsValid wq) (s : os.Sem)
    (room : os.value wq.writer ≡ suc (os.value s)) where
  open wq use {work_elements, head_cursor, tail_cursor, element_length, element_1_size}

  pub tail-lt : tail_cursor < element_length
  tail-lt = ground (arith, v.count, v.tail_at, v.head_in)

  -- The slot at the tail follows those of the messages that wait.
  tail-slot : tail_cursor ≡ slot element_length (first wq) (os.value wq.reader)
  tail-slot = ground (
    arith,
    v.count,
    v.tail_at,
    v.head_in,
    slot-next_cursor element_length head_cursor (os.value wq.reader) v.small v.head_in,
  )

  first-lt : first wq < element_length
  first-lt = ground (arith, next_cursor-lt element_length head_cursor v.small v.head_in)

  module _ (m : os.Mutex) (locked : os.held m ≡ true) (e : Element os)
      (at : get_elem? work_elements tail_cursor ≡ some e) (bytes : List ℕ) (npar : ℕ) (block : Bool)
      (whole : length bytes ≡ element_1_size) where
    abbrev new : Element os
    new = filled os e bytes npar block

    abbrev pub published : Wq os
    published = record wq {
      reader = os.sem_post wq.reader;
      writer = s;
      q_sync = os.mutex_unlock m;
      tail_cursor = next_cursor tail_cursor element_length;
      work_elements = set work_elements tail_cursor new;
    }

    signals-published : signals published ≡ signals wq
    signals-published = map-set_same is_signaled work_elements tail_cursor e new at refl

    messages-published : messages published ≡ set (messages wq) tail_cursor (message new)
    messages-published = map-set message work_elements tail_cursor new

    pub published-IsValid : IsValid published
    published-IsValid = record {
      small = v.small;
      stored = length-set work_elements tail_cursor new ∙ v.stored;
      head_in = v.head_in;
      count = rw signals-published (omega (arith, v.count, os.value-sem_post wq.reader));
      tail_at =
          rw (signals-published, v.tail_at, os.value-sem_post)
            (next_cursor-slot element_length head_cursor (size_of (holds wq) + os.value wq.reader)
                v.small v.head_in (omega (arith, v.count))
              ∙ ap (slot element_length head_cursor) (omega arith));
      free = os.held-mutex_unlock m locked;
      alone = λ i n. rw signals-published (v.alone i n);
      sized = All-set _ work_elements tail_cursor new v.sized whole;
    }

    pending-published : pending published ≡ pending wq ++ (message new ∷ [])
    pending-published =
        rw (signals-published, messages-published, os.value-sem_post)
          (window-set blank element_length (messages wq) (message new) (os.value wq.reader)
            (first wq) tail_cursor v.small
            (omega (arith, length-map message work_elements, v.stored)) first-lt
            (omega (arith, v.count)) tail-slot)

    held-published :
        holds wq ≡ true
        → get_or (messages published) head_cursor blank ≡ get_or (messages wq) head_cursor blank
    held-published h = rw messages-published (
        get_or-set_ne (messages wq) tail_cursor head_cursor (message new) blank
          (ground (arith, v.count, v.tail_at, v.head_in)))

    view_held-published : (view published).held ≡ (view wq).held
    view_held-published =
        rw signals-published
          (elim (Bool-cases (holds wq)) [ inl h ↦ rw (h, held-published h) | inr h ↦ rw h ])

    pub view-published :
        view published
        ≡ record { held = (view wq).held; pending = pending wq ++ (message new ∷ []) }
    view-published = λ i. record { held = view_held-published i; pending = pending-published i }
