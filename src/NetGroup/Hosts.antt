-- ===== src/NetGroup/Hosts.antt =====
-- The hosts of a router, `host_in` and the loop of `NetGroup_router_create` that calls it.
use workqueue.Platform.Codes.{wqenodev, dword, wqenomem, wqok, wqeinval}
use workqueue.WorkQueue.Open.{create}
use workqueue.NetGroup.Packets.{header}
use workqueue.NetGroup.Routing.{Handlers}
use workqueue.WorkQueue.Slots.{Wq}
use workqueue.Platform.Posix.{Posix}
use workqueue.Prelude.{
  ◌&&◌, ◌%◌, ◌||◌, ltb, ◌+◌, ◌==◌, if◌then◌else◌, List, not, Option, ℕ, Bool, none, some, true,
  false, [], ◌∷◌,
}

-- struct net_host_register_data: which of its functions are not NULL, and its numbers.
pub record Registration : Type 0 where
  pub inits : Bool
  pub deinits : Bool
  pub handlers : Handlers
  pub max_queuesize : ℕ
  pub queue_length : ℕ
  pub host_name : ℕ

-- struct net_host: its address, what it was registered with, and its queue.
pub record Host (os : Posix) : Type 0 where
  pub address : ℕ
  pub register_data : Registration
  pub queue : Wq os

unfoldable pub host_parameter_size : ℕ → ℕ → ℕ
host_parameter_size hostpar routepar =
    (header + (if ltb routepar hostpar then hostpar else routepar)) % dword

-- The tests of `host_in`, but the one for a router that is NULL, which no caller passes.
abbrev pub registrable : Registration → Bool
registrable r = not (
    r.max_queuesize == 0
    || r.queue_length == 0
    || not r.inits
    || not r.deinits
    || (not r.handlers.broadcasts && not r.handlers.multicasts && not r.handlers.unicasts))

-- `while(head && head->_nexthost)`: the host is linked behind the last.
unfoldable pub link_host : {os : Posix} → List (Host os) → Host os → List (Host os)
link_host [] h = h ∷ []
link_host (g ∷ hosts) h = g ∷ link_host hosts h

-- What the allocations of one call of `host_in` give: the address of the host, or NULL, and the
-- blocks of `WQ_open`.
pub record Allocations : Type 0 where
  pub block : Option ℕ
  pub grants : ℕ → Bool

module _ (os : Posix) (routeparsize : ℕ) where
  -- The code, and the hosts of the router.
  unfoldable pub host_in : Allocations → Registration → List (Host os) → ℕ × List (Host os)
  unfolding create
  host_in m r hosts = if not (registrable r) then (wqeinval, hosts) else elim m.block [
    | none ↦ (wqenomem, hosts)
    | some p ↦
        elim (create os m.grants (host_parameter_size r.max_queuesize routeparsize)
          r.queue_length) [
            | none ↦ (wqenodev, hosts)
            | some q ↦
                (wqok, link_host hosts (record { address = p; register_data = r; queue = q }))
          ]
  ]

  -- Whether all registrations were taken, and the hosts.
  unfoldable pub hosts_in :
      List (Allocations × Registration) → List (Host os) → Bool × List (Host os)
  hosts_in [] hosts = (true, hosts)
  hosts_in ((m, r) ∷ rs) hosts =
      let (code, linked) = host_in m r hosts in
      let rest = hosts_in rs linked in if code == wqok then rest else (false, linked)

-- `NetGroup_host_connect`: the first host of a name, or NULL.
unfoldable pub host_connect : {os : Posix} → ℕ → List (Host os) → Option (Host os)
host_connect hostname [] = none
host_connect hostname (h ∷ hosts) =
    let rest = host_connect hostname hosts in
    if h.register_data.host_name == hostname then some h else rest
