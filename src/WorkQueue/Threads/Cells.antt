-- ===== src/WorkQueue/Threads/Cells.antt =====
-- The slots between the two cursors, and what the log of messages says about them.
use workqueue.WorkQueue.Ring.{
  slot-next_cursor, window-set, next_cursor-slot, window, slot, next_cursor-lt,
}
use workqueue.Platform.Codes.{dword}
use workqueue.WorkQueue.Invariant.{blank, size_of, is_signaled, message}
use workqueue.WorkQueue.Mailbox.{Message}
use workqueue.WorkQueue.Slots.{acknowledge, filled, next_cursor, Element}
use workqueue.Platform.Posix.{Posix}
use workqueue.Prelude.{
  append_assoc, get_or-set_ne, sym, ℕ_discrete, get_or-set_self, ap, get_or-map_of_some, length-map,
  ◌≤◌, true, ◌∙◌, length-set, map-set, map-set_same, ◌++◌, set, ◌≢◌, ◌+◌, length, arith, ◌≡◌, ◌<◌,
  map, get_elem?, get_or, if◌then◌else◌, Bool, ℕ, List, suc, refl, some, false, [], ◌∷◌,
}

module _ {os : Posix} where
  abbrev pub held_at : List (Element os) → ℕ → Bool
  held_at cells head = get_or (map is_signaled cells) head false

  abbrev pub texts : List (Element os) → List Message
  texts cells = map message cells

  -- The cursor of the first message that was not handed out.
  abbrev pub front : ℕ → List (Element os) → ℕ → ℕ
  front cap cells head = if held_at cells head then next_cursor head cap else head

  -- `n` messages were published and not handed out, and lie in their order in front of the tail.
  pub record Ring (cap head tail : ℕ) (cells : List (Element os)) (sent received : List Message)
      (n : ℕ) : Type 0 where
    pub small : cap < dword
    pub stored : length cells ≡ cap
    pub head_in : head < cap
    pub tail_at : tail ≡ slot cap (front cap cells head) n
    pub alone : (i : ℕ) → i ≢ head → get_or (map is_signaled cells) i false ≡ false
    pub log : received ++ window blank cap (texts cells) (front cap cells head) n ≡ sent

  module _ {cap head tail : ℕ} {cells : List (Element os)} {sent received : List Message} {n : ℕ}
      (v : Ring cap head tail cells sent received n) where
    front-lt : front cap cells head < cap
    front-lt = ground (arith, next_cursor-lt cap head v.small v.head_in)

    pub tail-lt : n ≤ cap → tail < cap
    tail-lt few = ground (arith, v.tail_at, front-lt)

    -- A sender fills the slot at the tail.
    pub Ring-copy :
        (e : Element os) (bytes : List ℕ) (npar : ℕ) (block : Bool)
        → get_elem? cells tail ≡ some e
        → size_of (held_at cells head) + n < cap
        → let new = filled os e bytes npar block in
          Ring cap head
            (next_cursor tail cap)
            (set cells tail new)
            (sent ++ (message new ∷ []))
            received
            (suc n)
          × (held_at (set cells tail new) head ≡ held_at cells head)
    Ring-copy e bytes npar block at room =
        let new = filled os e bytes npar block in
        let signs : map is_signaled (set cells tail new) ≡ map is_signaled cells =
          map-set_same is_signaled cells tail e new at refl in
        let words = map-set message cells tail new in
        let after : List Message =
          received
          ++ window blank cap (texts (set cells tail new)) (front cap (set cells tail new) head)
              (suc n) in
        let before : List Message =
          received
          ++ window blank cap (set (texts cells) tail (message new)) (front cap cells head)
              (suc n) in
        let moved : after ≡ before = λ i.
          received
          ++ window blank cap (words i)
              (if get_or (signs i) head false then next_cursor head cap else head) (suc n) in
        (
          record {
            small = v.small;
            stored = length-set cells tail new ∙ v.stored;
            head_in = v.head_in;
            tail_at =
                rw (signs, v.tail_at)
                  (next_cursor-slot cap (front cap cells head) n v.small front-lt (omega arith));
            alone = λ i d. rw signs (v.alone i d);
            log =
                moved
                ∙ ap (λ (l : List Message). received ++ l)
                    (window-set blank cap (texts cells) (message new) n (front cap cells head) tail
                      v.small (omega (arith, length-map message cells, v.stored)) front-lt
                      (omega arith) v.tail_at)
                ∙ sym (append_assoc received _ (message new ∷ []))
                ∙ ap (λ (l : List Message). l ++ (message new ∷ [])) v.log;
          },
          rw signs refl,
        )

    -- The receiver gives back the slot that it holds.
    pub Ring-give :
        (e : Element os)
        → get_elem? cells head ≡ some e
        → e.signaled ≡ true
        → let given = set cells head (acknowledge os e) in
          Ring cap (next_cursor head cap) tail given sent received n
          × (held_at given (next_cursor head cap) ≡ false)
          × (held_at cells head ≡ true)
    unfolding acknowledge
    Ring-give e at marked =
        let given = set cells head (acknowledge os e) in
        let holds : held_at cells head ≡ true =
          get_or-map_of_some is_signaled cells head false at ∙ marked in
        let unset : (acknowledge os e).signaled ≡ false = ground arith in
        let size = length-map is_signaled cells in
        let clear : (i : ℕ) → get_or (map is_signaled given) i false ≡ false = λ i.
          rw (map-set is_signaled cells head (acknowledge os e), unset)
            (elim (ℕ_discrete i head) [
              | yes p ↦ rw p (
                  get_or-set_self (map is_signaled cells) head false false
                    (omega (arith, size, v.stored, v.head_in)))
              | no d ↦
                  get_or-set_ne (map is_signaled cells) head i false false (λ q. d (sym q))
                  ∙ v.alone i d
            ]) in
        let words : texts given ≡ texts cells =
          map-set_same message cells head e (acknowledge os e) at (ground arith) in
        let shut : front cap cells head ≡ next_cursor head cap = rw holds refl in
        let tail_at : tail ≡ slot cap (next_cursor head cap) n = v.tail_at ∙ rw holds refl in
        let log : received ++ window blank cap (texts cells) (next_cursor head cap) n ≡ sent =
          ap (λ h. received ++ window blank cap (texts cells) h n) (sym shut) ∙ v.log in
        (
          record {
            small = v.small;
            stored = length-set cells head (acknowledge os e) ∙ v.stored;
            head_in = next_cursor-lt cap head v.small v.head_in;
            tail_at = rw (clear (next_cursor head cap)) tail_at;
            alone = λ i d. clear i;
            log = rw (clear (next_cursor head cap), words) log;
          },
          clear (next_cursor head cap),
          holds,
        )

  -- The receiver marks the slot at the head, and has its message.
  pub Ring-take :
      {cap head tail : ℕ} {cells : List (Element os)} {sent received : List Message} {k : ℕ}
      → Ring cap head tail cells sent received (suc k)
      → (e : Element os) → get_elem? cells head ≡ some e
      → held_at cells head ≡ false
      → suc k ≤ cap
      → let marked = set cells head (record e { signaled = true }) in
        Ring cap head tail marked sent (received ++ (message e ∷ [])) k
        × (held_at marked head ≡ true)
  Ring-take {cap} {head} {tail} {cells} {sent} {received} {k} v e at unheld few =
      let new : Element os = record e { signaled = true } in
      let signs = map-set is_signaled cells head new in
      let size = length-map is_signaled cells in
      let holds : held_at (set cells head new) head ≡ true = rw signs (
        get_or-set_self (map is_signaled cells) head true false
          (omega (arith, size, v.stored, v.head_in))) in
      let words : texts (set cells head new) ≡ texts cells =
        map-set_same message cells head e new at refl in
      let open_head : front cap cells head ≡ head = rw unheld refl in
      (
        record {
          small = v.small;
          stored = length-set cells head new ∙ v.stored;
          head_in = v.head_in;
          tail_at = rw holds (
              v.tail_at
              ∙ ap (λ h. slot cap h (suc k)) open_head
              ∙ sym (slot-next_cursor cap head k v.small v.head_in (omega arith)));
          alone = λ i d. rw signs (
              get_or-set_ne (map is_signaled cells) head i true false (λ q. d (sym q))
              ∙ v.alone i d);
          log =
              rw (holds, words)
                (append_assoc received (message e ∷ []) _
                  ∙ ap
                      (λ m.
                        received ++ (m ∷ window blank cap (texts cells) (next_cursor head cap) k))
                      (sym (get_or-map_of_some message cells head blank at))
                  ∙ ap (λ h. received ++ window blank cap (texts cells) h (suc k)) (sym open_head)
                  ∙ v.log);
        },
        holds,
      )

  -- A sender takes the answer of its slot.
  pub Ring-answer :
      {cap head tail : ℕ} {cells : List (Element os)} {sent received : List Message} {n : ℕ}
      → Ring cap head tail cells sent received n
      → (i : ℕ) (e : Element os) (s : os.Sem) → get_elem? cells i ≡ some e
      → let after = set cells i (record e { ack = s }) in
        Ring cap head tail after sent received n × (held_at after head ≡ held_at cells head)
  Ring-answer {cap} {head} {tail} {cells} {sent} {received} {n} v i e s at =
      let new : Element os = record e { ack = s } in
      let signs : map is_signaled (set cells i new) ≡ map is_signaled cells =
        map-set_same is_signaled cells i e new at refl in
      let words : texts (set cells i new) ≡ texts cells =
        map-set_same message cells i e new at refl in
      (
        record {
          small = v.small;
          stored = length-set cells i new ∙ v.stored;
          head_in = v.head_in;
          tail_at = rw signs v.tail_at;
          alone = λ j d. rw signs (v.alone j d);
          log = rw (signs, words) v.log;
        },
        rw signs refl,
      )

  -- While the receiver holds a slot and there is room, the tail is at another.
  pub tail-ne-head :
      {cap head tail : ℕ} {cells : List (Element os)} {sent received : List Message} {n : ℕ}
      → Ring cap head tail cells sent received n
      → held_at cells head ≡ true
      → suc n < cap
      → tail ≢ head
  tail-ne-head {cap} {head} {tail} {cells} {sent} {received} {n} v holds room =
      let shut : front cap cells head ≡ next_cursor head cap = rw holds refl in
      let at : tail ≡ slot cap head (suc n) =
        v.tail_at
        ∙ ap (λ h. slot cap h n) shut
        ∙ slot-next_cursor cap head n v.small v.head_in (omega arith) in
      ground (arith, v.head_in)
