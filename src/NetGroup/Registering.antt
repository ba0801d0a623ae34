-- ===== src/NetGroup/Registering.antt =====
-- `host_in` where the system gives what it asks for: every allocation, semaphore and mutex.
use workqueue.WorkQueue.Mailbox.{size_held}
use workqueue.NetGroup.Delivery.{Each, CanTake, no_more, one_more}
use workqueue.WorkQueue.Open.{create_lem}
use workqueue.Platform.Codes.{wqeinval, wqok, dword}
use workqueue.WorkQueue.Invariant.{pending, view, IsValid}
use workqueue.NetGroup.Packets.{header}
use workqueue.Platform.Posix.{Posix}
use workqueue.NetGroup.Hosts.{
  hosts_in, host_in, registrable, Host, Allocations, link_host, host_parameter_size, Registration,
}
use workqueue.Prelude.{
  ◌∙◌, false, append_assoc, append-nil, sym, length, All, inl, ◌⊎◌, ◌≤◌, ap, arith, ◌+◌, ◌++◌, ◌≢◌,
  ◌<◌, List, ◌≡◌, ℕ, refl, none, some, true, [], ◌∷◌,
}

-- A host as `host_in` makes it: its queue is empty, with the length of the registration and
-- slots for messages as large as the registration and the router ask for.
pub record Made {os : Posix} (routeparsize : ℕ) (x : Allocations × Registration) (h : Host os)
    : Type 0 where
  pub address : x.0.block ≡ some h.address
  pub register_data : h.register_data ≡ x.1
  pub valid : IsValid h.queue
  pub state : view h.queue ≡ record { held = none; pending = [] }
  pub width : h.queue.element_1_size ≡ host_parameter_size x.1.max_queuesize routeparsize
  pub cap : h.queue.element_length ≡ x.1.queue_length

link_host-append :
    {os : Posix} (hosts : List (Host os)) (h : Host os) → link_host hosts h ≡ hosts ++ h ∷ []
unfolding link_host
link_host-append [] h = refl
link_host-append (g ∷ hosts) h = ap (λ (l : List (Host _)). g ∷ l) (link_host-append hosts h)

-- A registration that `host_in` takes, with sizes that 32 bits hold, and the memory that it is
-- given.
pub record Granted (routeparsize : ℕ) (x : Allocations × Registration) : Type 0 where
  pub taken : registrable x.1 ≡ true
  pub at : ℕ
  pub block : x.0.block ≡ some at
  pub grants : (n : ℕ) → x.0.grants n ≡ true
  pub small : x.1.queue_length < dword
  pub narrow : header + x.1.max_queuesize < dword
  pub narrow_route : header + routeparsize < dword

pub registrable-sizes :
    (r : Registration) → registrable r ≡ true → (r.max_queuesize ≢ 0) × (r.queue_length ≢ 0)
registrable-sizes r e = ground arith

pub host_parameter_size-fits :
    (hostpar routepar n : ℕ)
    → header + hostpar < dword
    → header + routepar < dword
    → (n ≤ hostpar) ⊎ (n ≤ routepar)
    → header + n ≤ host_parameter_size hostpar routepar
unfolding host_parameter_size
host_parameter_size-fits hostpar routepar n small small_route fits = ground arith

host_in-refused :
    {os : Posix} (routeparsize : ℕ) (m : Allocations) (r : Registration) (hosts : List (Host os))
    → registrable r ≡ false
    → host_in os routeparsize m r hosts ≡ (wqeinval, hosts)
unfolding host_in
host_in-refused routeparsize m r hosts refused = rw refused refl

module _ {os : Posix} (routeparsize : ℕ) (m : Allocations) (r : Registration)
    (rs : List (Allocations × Registration)) (hosts linked : List (Host os)) where
  hosts_in-goes_on :
      host_in os routeparsize m r hosts ≡ (wqok, linked)
      → hosts_in os routeparsize ((m, r) ∷ rs) hosts ≡ hosts_in os routeparsize rs linked
  unfolding hosts_in
  hosts_in-goes_on e = rw e refl

  hosts_in-ends :
      host_in os routeparsize m r hosts ≡ (wqeinval, linked)
      → hosts_in os routeparsize ((m, r) ∷ rs) hosts ≡ (false, linked)
  unfolding hosts_in
  hosts_in-ends e = rw e refl

module _ {os : Posix} (sems : (n : ℕ) → (s : os.Sem) × (os.sem_init n ≡ some s)) (q : os.Mutex)
    (opened : os.mutex_init ≡ some q) where
  -- `host_in` of a registration that it takes, where the system gives what is asked for,
  -- returns WQOK with a host behind the others, whose queue is valid and empty and of the
  -- sizes that were asked for.
  pub host_in_lem :
      (routeparsize : ℕ) (m : Allocations) (r : Registration) (hosts : List (Host os))
      → Granted routeparsize (m, r)
      → (h : Host os) × (host_in os routeparsize m r hosts ≡ (wqok, hosts ++ h ∷ []))
        × Made routeparsize (m, r) h
  unfolding host_in
  host_in_lem routeparsize m r hosts g =
      let (some_size, some_length) = registrable-sizes r g.taken in
      let size = host_parameter_size r.max_queuesize routeparsize in
      let holds_header =
        host_parameter_size-fits r.max_queuesize routeparsize 0 g.narrow g.narrow_route
          (inl (omega arith)) in
      let wide : size ≢ 0 = omega (arith, holds_header) in
      let (wq, made, v, state, width, cap) =
        create_lem g.grants sems size r.queue_length wide some_length g.small q opened in
      let h : Host os = record { address = g.at; register_data = r; queue = wq } in
      (
        h,
        rw (g.taken, g.block, made, link_host-append hosts h) refl,
        record {
          address = g.block;
          register_data = refl;
          valid = v;
          state = state;
          width = width;
          cap = cap;
        },
      )

  -- `host_in` for one registration after the other.
  pub hosts_in_lem :
      (routeparsize : ℕ) (rs : List (Allocations × Registration)) (hosts : List (Host os))
      → All (Granted routeparsize) rs
      → (hs : List (Host os)) × (hosts_in os routeparsize rs hosts ≡ (true, hosts ++ hs))
        × Each (Made routeparsize) rs hs
  unfolding hosts_in
  hosts_in_lem routeparsize [] hosts a = ([], (λ i. (true, sym (append-nil hosts) i)), no_more)
  hosts_in_lem routeparsize ((m, r) ∷ rs) hosts (g, a) =
      let (h, linked, made) = host_in_lem routeparsize m r hosts g in
      let (hs, others, all_made) = hosts_in_lem routeparsize rs (hosts ++ h ∷ []) a in
      (h ∷ hs, rw (linked, others, append_assoc hosts (h ∷ []) hs) refl, one_more made all_made)

  -- The second registration is refused: the first host stays in the list.
  pub hosts_in-refused :
      (routeparsize : ℕ) (x y : Allocations × Registration) (rs : List (Allocations × Registration))
      → Granted routeparsize x
      → registrable y.1 ≡ false
      → (h : Host os) × (hosts_in os routeparsize (x ∷ y ∷ rs) [] ≡ (false, h ∷ []))
        × Made routeparsize x h
  unfolding hosts_in
  hosts_in-refused routeparsize x y rs g refused =
      let (h, linked, made) = host_in_lem routeparsize x.0 x.1 [] g in
      (
        h,
        hosts_in-goes_on routeparsize x.0 x.1 (y ∷ rs) [] (h ∷ []) linked
            ∙ hosts_in-ends routeparsize y.0 y.1 rs (h ∷ []) (h ∷ [])
                (host_in-refused {os = os} routeparsize y.0 y.1 (h ∷ []) refused),
        made,
      )

-- What fits the registration or the router fits the queue of the host, as often as the queue
-- is long.
pub Made-CanTake :
    {os : Posix} (routeparsize count n : ℕ) (x : Allocations × Registration) (h : Host os)
    → Granted routeparsize x
    → Made routeparsize x h
    → count ≤ x.1.queue_length
    → (n ≤ x.1.max_queuesize) ⊎ (n ≤ routeparsize)
    → CanTake count (header + n) h
Made-CanTake routeparsize count n x h g v few fits =
    let wide =
      host_parameter_size-fits x.1.max_queuesize routeparsize n g.narrow g.narrow_route fits in
    let none_held : size_held (view h.queue).held ≡ 0 = λ i. size_held (v.state i).held in
    let none_wait : length (pending h.queue) ≡ 0 = λ i. length (v.state i).pending in
    record {
      valid = v.valid;
      room = omega (arith, v.cap, none_held, none_wait);
      wide = omega (arith, wide, v.width);
    }
