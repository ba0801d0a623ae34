-- ===== src/WorkQueue/Session.antt =====
-- Calls of one queue in a row, with time limits, against the mailbox that it stands for.
use workqueue.WorkQueue.Calls.{recv, send}
use workqueue.WorkQueue.Recv.{received, recv_lem}
use workqueue.WorkQueue.Enqueue.{send_lem}
use workqueue.Platform.Codes.{timed_out, signaled, infinite}
use workqueue.WorkQueue.Invariant.{view, IsValid}
use workqueue.WorkQueue.Send.{sent}
use workqueue.Platform.Run.{done, ◌>>=◌, returns, bind, Returns, pure, Cmd}
use workqueue.WorkQueue.Slots.{Wq}
use workqueue.Platform.Clock.{Timespec}
use workqueue.WorkQueue.Mailbox.{deliver, Message, accept, Mailbox}
use workqueue.Platform.Posix.{Posix}
use workqueue.Prelude.{
  ◌∙◌, sym, subst, ◌∷◌, ap₂, ◌==◌, ap, if◌then◌else◌, ◌≡◌, All, length, ◌≤◌, Option, ◌≢◌, ℕ, List,
  refl, some, inl, [],
}

-- A call: the caller's block with the size of the message, and the time limit; or a time limit.
pub data Request : Type 0 where
  put : List ℕ → ℕ → ℕ → Request
  get : ℕ → Request

-- What the caller sees: a code, and the message behind the pointer of `WQ_recv`.
pub data Event : Type 0 where
  answered : ℕ → Event
  delivered : ℕ → Option Message → Event

-- A request that `WQ_send` takes and that ends: not empty, not longer than a slot, and readable.
abbrev pub Fits : ℕ → Request → Type 0
Fits width (put par npar time) =
    (npar ≢ 0) × (npar ≤ width) × (npar ≤ length par) × (time ≢ infinite)
Fits width (get time) = time ≢ infinite

module _ (os : Posix) (now : Timespec) where
  abbrev perform : Request → Cmd (Wq os) Event
  perform (put par npar time) = do c ← send os now (some par) npar time 0; pure (answered c)
  perform (get time) = do r ← recv os now time; λ w. done (delivered r.code (received r w)) w

  unfoldable pub serve : List Request → Cmd (Wq os) (List Event)
  serve [] = pure []
  serve (q ∷ qs) = do e ← perform q; es ← serve qs; pure (e ∷ es)

-- The same requests to a mailbox of `cap` messages of at most `width` bytes.
module _ (cap width : ℕ) where
  abbrev answer_to : Mailbox → Request → Event × Mailbox
  answer_to box (put par npar time) =
      let (room, box') = accept cap (sent width par npar) box in
      (answered (if room then signaled else timed_out), box')
  answer_to box (get time) =
      let (m, box') = deliver box in
      (delivered (if length box.pending == 0 then timed_out else signaled) m, box')

  unfoldable pub answers : List Request → Mailbox → List Event × Mailbox
  answers [] box = ([], box)
  answers (q ∷ qs) box =
      let (e, box') = answer_to box q in let (es, box'') = answers qs box' in (e ∷ es, box'')

module _ {os : Posix} (now : Timespec) where
  -- What one request does.
  record Served (q : Request) (wq : Wq os) (e : Event) (w : Wq os) : Type 0 where
    valid : IsValid w
    event : e ≡ (answer_to wq.element_length wq.element_1_size (view wq) q).0
    state : view w ≡ (answer_to wq.element_length wq.element_1_size (view wq) q).1
    cap : w.element_length ≡ wq.element_length
    width : w.element_1_size ≡ wq.element_1_size

  perform_lem :
      (q : Request) {wq : Wq os}
      → IsValid wq
      → Fits wq.element_1_size q
      → Returns (λ e w. Served q wq e w) (perform os now q wq)
  perform_lem (put par npar time) v (some_bytes, fits, read, limit) =
      bind (send_lem now par npar 0 v time some_bytes fits read refl (inl limit)) λ c w a.
        returns (record {
          valid = a.valid;
          event = ap answered a.code;
          state = a.state;
          cap = a.cap;
          width = a.width;
        })
  perform_lem (get time) v limit = bind (recv_lem now time v (inl limit)) λ r w t. returns (record {
    valid = t.valid;
    event = ap₂ delivered t.code t.given;
    state = t.state;
    cap = t.cap;
    width = t.width;
  })

  -- No sequence of calls with time limits, of `WQ_send` with flags 0, so that no answer is asked
  -- for, of messages that are not empty and fit the slots, and of `WQ_recv`, tells a valid queue
  -- from the mailbox that it stands for: all calls return, the codes and the messages are the
  -- mailbox's, and the queue that is left is valid and stands for the mailbox that is left.
  pub serve_refines :
      (qs : List Request) {wq : Wq os}
      → IsValid wq
      → All (Fits wq.element_1_size) qs
      → Returns
          (λ es w.
            IsValid w × ((es, view w) ≡ answers wq.element_length wq.element_1_size qs (view wq)))
          (serve os now qs wq)
  unfolding serve answers
  serve_refines [] v h = returns (v, refl)
  serve_refines (q ∷ qs) {wq} v (fits, h) = bind (perform_lem q v fits) λ e w s.
      bind (serve_refines qs s.valid (subst (λ n. All (Fits n) qs) (sym s.width) h)) λ es u r.
        let rest = r.1 ∙ λ i. answers (s.cap i) (s.width i) qs (s.state i) in
        returns (r.0, λ i. (s.event i ∷ (rest i).0, (rest i).1))
