-- ===== src/WorkQueue/Open.antt =====
-- `WQ_open` and the drain of `WQ_close` in WQ.c. `grants n` says whether the n-th `libwq_malloc`
-- of the call gives a block, which is filled with zeros.
use workqueue.WorkQueue.Calls.{recv}
use workqueue.WorkQueue.Recv.{recv_lem}
use workqueue.WorkQueue.Ring.{length-window}
use workqueue.Platform.Codes.{signaled, timed_out, dword}
use workqueue.WorkQueue.Mailbox.{Mailbox, Message}
use workqueue.WorkQueue.Invariant.{first, messages, blank, view, is_signaled, pending, IsValid}
use workqueue.Platform.Run.{◌>>=◌, returns, bind, Returns, pure, Cmd}
use workqueue.WorkQueue.Slots.{Wq, Element}
use workqueue.Platform.Clock.{Timespec}
use workqueue.Prelude.{
  ◌∙◌, arith, length-replicate, ◌∷◌, replicate, ap, map, ◌<◌, ◌+◌, get_or, ◌≢◌, zero, suc, refl,
  inl, with_some, none, not, All, ◌||◌, [], ◌==◌, some, true, if◌then◌else◌, false, List, length,
  Option, ◌≡◌, Bool, ℕ,
}
use workqueue.Platform.Posix.{Posix}

module _ {os : Posix} where
  abbrev new_element : os.Sem → ℕ → Element os
  new_element ack size = record {
    sema_ack = false;
    signaled = false;
    ack = ack;
    par = replicate size 0;
    npar = 0;
  }

  abbrev new_queue : ℕ → ℕ → os.Mutex → os.Sem → os.Sem → List (Element os) → Wq os
  new_queue size length q_sync reader writer es = record {
    element_1_size = size;
    element_length = length;
    reader = reader;
    writer = writer;
    q_sync = q_sync;
    head_cursor = 0;
    tail_cursor = 0;
    work_elements = es;
  }

module _ (os : Posix) (grants : ℕ → Bool) where
  -- `elements_create` from the element `i` on, with `k` elements left.
  elements_from : ℕ → ℕ → ℕ → Option (List (Element os))
  elements_from size zero i = some []
  elements_from size (suc k) i =
      let rest = elements_from size k (i + 1) in
      if grants (i + 2)
      then with_some (os.sem_init 0)
          (λ ack. with_some rest (λ es. some (new_element ack size ∷ es)))
      else none

  -- `alloc_wq`, `syncs_create` and `elements_create`. What fails is NULL, once all is freed.
  unfoldable pub create : ℕ → ℕ → Option (Wq os)
  unfolding elements_from
  create size length =
      if size == 0 || (length == 0 || not (grants 0))
      then none
      else with_some os.mutex_init (λ q_sync. with_some (os.sem_init 0) (λ reader.
        with_some (os.sem_init length) (λ writer.
          if grants 1
          then with_some (elements_from size length 0)
              (λ es. some (new_queue size length q_sync reader writer es))
          else none)))

-- The loop of `threshold`, on fuel: `false` if the fuel is spent.
unfoldable pub threshold : (os : Posix) → Timespec → ℕ → Cmd (Wq os) Bool
threshold os now zero = pure false
threshold os now (suc fuel) = do
  r ← recv os now 20
  if r.code == signaled then threshold os now fuel else pure true

-- What an element is created as.
abbrev IsNew : {os : Posix} → ℕ → Element os → Type 0
IsNew size e = (length e.par ≡ size) × (e.signaled ≡ false)

module _ {os : Posix} {grants : ℕ → Bool} (granted : (n : ℕ) → grants n ≡ true)
    (sems : (n : ℕ) → (s : os.Sem) × (os.sem_init n ≡ some s)) where
  elements_from_lem :
      (size k i : ℕ)
      → (es : List (Element os)) × (elements_from os grants size k i ≡ some es)
        × (length es ≡ k)
        × All (IsNew size) es
  unfolding elements_from
  elements_from_lem size zero i = ([], refl, refl, tt)
  elements_from_lem size (suc k) i =
      let (es, e, l, h) = elements_from_lem size k (i + 1) in
      let (s, p) = sems 0 in
      (
        new_element s size ∷ es,
        rw (granted (i + 2), p, e),
        ap suc l,
        ((length-replicate size 0, refl), h),
      )

  unset :
      (es : List (Element os)) (size i : ℕ)
      → All (IsNew size) es
      → get_or (map is_signaled es) i false ≡ false
  unset [] size i h = refl
  unset (e ∷ es) size zero h = h.0.1
  unset (e ∷ es) size (suc i) h = unset es size i h.1

  wide :
      (es : List (Element os)) (size : ℕ)
      → All (IsNew size) es
      → All (λ (e : Element os). length e.par ≡ size) es
  wide [] size h = tt
  wide (e ∷ es) size h = (h.0.0, wide es size h.1)

  -- With all its resources granted `WQ_open` of positive sizes gives a valid queue of these sizes
  -- that holds nothing.
  pub create_lem :
      (size length : ℕ)
      → size ≢ 0
      → length ≢ 0
      → length < dword
      → (q : os.Mutex) → os.mutex_init ≡ some q
      → (wq : Wq os) × (create os grants size length ≡ some wq)
        × IsValid wq
        × (view wq ≡ record { held = none; pending = [] })
        × (wq.element_1_size ≡ size)
        × (wq.element_length ≡ length)
  unfolding create
  create_lem size n positive some_slots small q opened =
      let (reader, pr) = sems 0 in
      let (writer, pw) = sems n in
      let (es, pe, l, h) = elements_from_lem size n 0 in
      let vr : os.value reader ≡ 0 = os.value-sem_init 0 pr in
      let vw : os.value writer ≡ n = os.value-sem_init n pw in
      let off : get_or (map is_signaled es) 0 false ≡ false = unset es size 0 h in
      let size_test : (size == 0) ≡ false = ground arith in
      let length_test : (n == 0) ≡ false = ground arith in
      (
        new_queue size n q reader writer es,
        rw (size_test, length_test, granted 0, granted 1, opened, pr, pw, pe),
        record {
          small = small;
          stored = l;
          head_in = omega arith;
          count = rw (off, vr, vw) (omega arith);
          tail_at = rw (off, vr) (ground arith);
          free = os.held-mutex_init opened;
          alone = λ i _. unset es size i h;
          sized = wide es size h;
        },
        rw (off, vr),
        refl,
        refl,
      )

module _ {os : Posix} (now : Timespec) where
  threshold_from :
      (fuel : ℕ) (ms : List Message) {wq : Wq os}
      → IsValid wq
      → pending wq ≡ ms
      → length ms < fuel
      → Returns
          (λ b w. (b ≡ true) × IsValid w × (view w ≡ record { held = none; pending = [] }))
          (threshold os now fuel wq)
  unfolding threshold
  threshold_from zero ms v e small = absurd (omega arith)
  threshold_from (suc fuel) [] v e small = bind (recv_lem now 20 v (inl (omega arith))) λ r w t.
      let code : r.code ≡ timed_out = t.code ∙ rw e (ground arith) in
      rw code (returns (refl, t.valid, t.state ∙ rw e))
  threshold_from (suc fuel) (m ∷ ms) v e small =
      bind (recv_lem now 20 v (inl (omega arith))) λ r w t.
        let code : r.code ≡ signaled = t.code ∙ rw e (ground arith) in
        let left : pending w ≡ ms = ap (λ (box : Mailbox). box.pending) t.state ∙ rw e in
        rw code (threshold_from fuel ms t.valid left (omega arith))

  -- The drain of `WQ_close` ends: with fuel for one call more than messages wait, the last call
  -- times out, and a valid queue is left that holds nothing.
  pub threshold_lem :
      (fuel : ℕ) {wq : Wq os}
      → IsValid wq
      → os.value wq.reader < fuel
      → Returns
          (λ b w. (b ≡ true) × IsValid w × (view w ≡ record { held = none; pending = [] }))
          (threshold os now fuel wq)
  threshold_lem fuel {wq} v small =
      threshold_from fuel (pending wq) v refl
        (omega (arith, length-window blank wq.element_length (messages wq) (first wq)))
