-- ===== src/WorkQueue/Ring.antt =====
-- The slots of a ring that follow a cursor, in the order in which `q_iNext` visits them.
use workqueue.Prelude.{
  refl, ℕ, zero, suc, ◌+◌, ◌-◌, ◌≤◌, ◌<◌, ◌≡◌, ap, ap₂, List, [], ◌∷◌, ◌++◌, arith, ltb, ◌==◌,
  if◌then◌else◌, length, get_or, set, get_or-set_self, get_or-set_ne,
}
use workqueue.Platform.Codes.{dword}
use workqueue.WorkQueue.Slots.{next_cursor}

-- The slot `n` steps behind the cursor `h`.
abbrev pub slot : ℕ → ℕ → ℕ → ℕ
slot cap h n = if ltb (h + n) cap then h + n else h + n - cap

pub next_cursor_lem :
    (cap h : ℕ) → cap < dword → h < cap → next_cursor h cap ≡ (if suc h == cap then 0 else suc h)
unfolding next_cursor
next_cursor_lem cap h small hh = ground arith

pub next_cursor-lt : (cap h : ℕ) → cap < dword → h < cap → next_cursor h cap < cap
next_cursor-lt cap h small hh = ground (arith, next_cursor_lem cap h small hh)

pub slot-next_cursor :
    (cap h n : ℕ)
    → cap < dword
    → h < cap
    → n < cap
    → slot cap (next_cursor h cap) n ≡ slot cap h (suc n)
slot-next_cursor cap h n small hh hn = ground (arith, next_cursor_lem cap h small hh)

pub next_cursor-slot :
    (cap h n : ℕ)
    → cap < dword
    → h < cap
    → n < cap
    → next_cursor (slot cap h n) cap ≡ slot cap h (suc n)
next_cursor-slot cap h n small hh hn = ground (arith, next_cursor_lem cap (slot cap h n) small)

module _ {A : Type 0} (blank : A) (cap : ℕ) where
  -- The `n` entries from the cursor `h` on.
  abbrev pub window : List A → ℕ → ℕ → List A
  window ms h zero = []
  window ms h (suc n) = get_or ms h blank ∷ window ms (next_cursor h cap) n

  pub length-window : (ms : List A) (h n : ℕ) → length (window ms h n) ≡ n
  length-window ms h zero = refl
  length-window ms h (suc n) = ap suc (length-window ms (next_cursor h cap) n)

  -- A write just behind a window adds to it.
  pub window-set :
      (ms : List A) (x : A) (n h i : ℕ)
      → cap < dword
      → cap ≤ length ms
      → h < cap
      → n < cap
      → i ≡ slot cap h n
      → window (set ms i x) h (suc n) ≡ window ms h n ++ (x ∷ [])
  window-set ms x zero h i small fits hh hn e =
      ap (λ (y : A). y ∷ [])
        (let e' : i ≡ h = ground arith in rw e' (get_or-set_self ms h x blank (omega arith)))
  window-set ms x (suc n) h i small fits hh hn e =
      ap₂ ◌∷◌ (get_or-set_ne ms i h x blank (ground arith)) (
        window-set ms x n (next_cursor h cap) i small fits (next_cursor-lt cap h small hh)
          (omega arith) (ground (arith, slot-next_cursor cap h n small hh)))
