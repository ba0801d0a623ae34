-- ===== src/Chains/Calls.antt =====
-- The functions on queues and stacks, and on lists as far as they link. A head pointer is not NULL;
-- what it points to may be. Loops run on fuel, and `none` is fuel that is spent.
-- `while(current->next)`: the last element.
use workqueue.Chains.Store.{put, Store, Chain}
use workqueue.Prelude.{with_some, Bool, ◌==◌, Option, if◌then◌else◌, ℕ, zero, suc, none, some}

unfoldable pub last : ℕ → Store → ℕ → Option ℕ
last zero h p = none
last (suc fuel) h p = let rest = last fuel h (h p) in if h p == 0 then some p else rest

-- `while(current)`: how many elements there are.
unfoldable pub count : ℕ → Store → ℕ → Option ℕ
count zero h p = none
count (suc fuel) h p =
    let rest = count fuel h (h p) in if p == 0 then some 0 else with_some rest (λ n. some (suc n))

abbrev pub append_at : Chain → ℕ → Option ℕ → Option Chain
append_at c ptr none = none
append_at c ptr (some l) = some (record { head = c.head; links = put c.links l ptr })

unfoldable pub list_link : ℕ → Chain → ℕ → Option Chain
unfolding last
list_link fuel c ptr =
    if ptr == 0
    then some c
    else if c.head == 0
    then some (record { head = ptr; links = put c.links ptr 0 })
    else append_at c ptr (last fuel c.links c.head)

unfoldable pub queue_push : ℕ → Chain → ℕ → Option Chain
unfolding last
queue_push fuel c ptr =
    if ptr == 0
    then some c
    else if c.head == 0
    then some (record { head = ptr; links = c.links })
    else append_at c ptr (last fuel c.links c.head)

-- What is returned, and the chain after it.
unfoldable pub queue_pop : Chain → ℕ × Chain
queue_pop c =
    if c.head == 0 then (0, c) else (c.head, record { head = c.links c.head; links = c.links })

unfoldable pub stack_push : Chain → ℕ → Chain
stack_push c ptr =
    if ptr == 0
    then c
    else if c.head == 0
    then record { head = ptr; links = c.links }
    else record { head = ptr; links = put c.links ptr c.head }

unfoldable pub stack_pop : Chain → ℕ × Chain
stack_pop c =
    if c.head == 0 then (0, c) else (c.head, record { head = c.links c.head; links = c.links })

unfoldable pub chain_length : ℕ → Chain → Option ℕ
unfolding count
chain_length fuel c = count fuel c.links c.head

unfoldable pub chain_empty : ℕ → Chain → Option Bool
unfolding chain_length
chain_empty fuel c = with_some (chain_length fuel c) (λ n. some (n == 0))
