-- ===== src/WorkQueue/Slots.antt =====
-- The state of WQ.c and its steps on one slot: `struct element` and `struct WQ` of _WQ.h, and the
-- cursor macro. The two bits of `flags` are two truth values. `t_id` is written and never read.
use workqueue.Prelude.{
  true, ℕ, ◌+◌, ◌-◌, ◌%◌, Bool, false, Option, none, some, List, ◌++◌, ltb, leb, if◌then◌else◌,
  length, take, replicate,
}
use workqueue.Platform.Codes.{dword}
use workqueue.Platform.Posix.{Posix}

-- q_iNext of _WQ.h, over `_dword` cursors
unfoldable pub next_cursor : ℕ → ℕ → ℕ
next_cursor cursor max = if leb max ((cursor + 1) % dword) then 0 else (cursor + 1) % dword

-- struct element: `sema_ack` and `signaled` are the bits ELEMENT_FLAGS_SEMA_ACK and
-- ELEMENT_FLAGS_SIGNALED, and `par` the bytes of the block that it points to.
pub record Element (os : Posix) : Type 0 where
  pub sema_ack : Bool
  pub signaled : Bool
  pub ack : os.Sem
  pub par : List ℕ
  pub npar : ℕ

-- struct WQ
pub record Wq (os : Posix) : Type 0 where
  pub element_1_size : ℕ
  pub element_length : ℕ
  pub reader : os.Sem
  pub writer : os.Sem
  pub q_sync : os.Mutex
  pub head_cursor : ℕ
  pub tail_cursor : ℕ
  pub work_elements : List (Element os)

-- `memset(slot, 0, size); memcpy(slot, par, npar)` on a slot of `size` bytes. `none` is a write
-- behind the slot, or a read behind the caller's block.
unfoldable pub fill : ℕ → List ℕ → ℕ → Option (List ℕ)
fill size par npar =
    if ltb size npar
    then none
    else if ltb (length par) npar
    then none
    else some (take npar par ++ replicate (size - npar) 0)

module _ (os : Posix) where
  -- What `WQ_recv` does to the element that it gives back.
  unfoldable pub acknowledge : Element os → Element os
  acknowledge e =
      if e.sema_ack
      then record e { ack = os.sem_post e.ack; sema_ack = false; signaled = false }
      else record e { signaled = false }

  -- What `WQ_send` does to the element at the tail, whose slot holds `bytes` after the copy.
  abbrev pub filled : Element os → List ℕ → ℕ → Bool → Element os
  filled e bytes npar block = record e {
    par = bytes;
    npar = npar;
    sema_ack = if block then true else e.sema_ack;
  }
