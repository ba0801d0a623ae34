-- ===== src/WorkQueue/Mailbox.antt =====
-- The contract of a work queue: messages in the order of their sending, at most `cap` of them, of
-- which the receiver may hold one that it was given and has not given back.
use workqueue.Prelude.{
  ℕ, ◌+◌, Bool, true, false, Option, none, some, List, [], ◌∷◌, ◌++◌, ltb, if◌then◌else◌, length,
}

pub record Message : Type 0 where
  pub bytes : List ℕ
  pub size : ℕ

pub record Mailbox : Type 0 where
  pub held : Option Message
  pub pending : List Message

abbrev pub size_held : Option Message → ℕ
size_held none = 0
size_held (some m) = 1

-- The receiver gives back what it holds, and takes the oldest message.
abbrev pub deliver_from : List Message → Option Message × Mailbox
deliver_from [] = (none, record { held = none; pending = [] })
deliver_from (m ∷ ms) = (some m, record { held = some m; pending = ms })

abbrev pub deliver : Mailbox → Option Message × Mailbox
deliver box = deliver_from box.pending

-- A sender adds a message if there is room.
abbrev pub accept : ℕ → Message → Mailbox → Bool × Mailbox
accept cap m box =
    if ltb (size_held box.held + length box.pending) cap
    then (true, record box { pending = box.pending ++ (m ∷ []) })
    else (false, box)
