-- ===== src/NetGroup/Casts.antt =====
-- The functions of NetGroup.c that send to hosts. No thread acts during a call. A host that is
-- sent to is an address; one that sends is its structure, or NULL.
use workqueue.WorkQueue.Slots.{Wq}
use workqueue.Platform.Codes.{infinite, dword}
use workqueue.NetGroup.Packets.{header, dump_of}
use workqueue.WorkQueue.Calls.{send}
use workqueue.NetGroup.Routes.{Routes, multicast_to}
use workqueue.Platform.Clock.{Timespec}
use workqueue.NetGroup.Hosts.{Host}
use workqueue.Platform.Posix.{Posix}
use workqueue.Prelude.{
  ◌%◌, length, leb, ◌==◌, not, ◌+◌, ◌-◌, if◌then◌else◌, Bool, ℕ, Option, List, none, some, true, [],
  ◌∷◌,
}
use workqueue.NetGroup.Routing.{Cast, Packet, unicast, broadcast, multicast, disconnect, closing}
use workqueue.Platform.Run.{pure, ◌>>◌, Cmd, Run, done, waiting, fault}

module _ {os : Posix} where
  -- The other hosts are behind the first.
  abbrev pub behind_host :
      Host os → Run (List (Host os)) (Unit {0}) → Run (List (Host os)) (Unit {0})
  behind_host h (done u hosts) = done u (h ∷ hosts)
  behind_host h (waiting hosts) = waiting (h ∷ hosts)
  behind_host h fault = fault

  -- What follows a `WQ_send` to the queue of the first host: only a call that returns is followed.
  abbrev pub after_post :
      Host os
      → List (Host os)
      → Run (Wq os) ℕ
      → Run (List (Host os)) (Unit {0})
      → Run (List (Host os)) (Unit {0})
  after_post h hosts (done c q) rest = behind_host (record h { queue = q }) rest
  after_post h hosts (waiting q) rest = waiting (record h { queue = q } ∷ hosts)
  after_post h hosts fault rest = fault

  -- What a sender is called: `host ? host->_register_data._host_name : -404`, of an `unsigned`.
  abbrev pub name_of : Option (Host os) → ℕ
  name_of none = dword - 404
  name_of (some h) = h.register_data.host_name

module _ (os : Posix) (now : Timespec) where
  -- `WQ_send` of a packet to the queue of a host, without a limit of time.
  unfoldable pub post : Packet → ℕ → Host os → Run (Wq os) ℕ
  unfolding send dump_of
  post p flags h =
      send os now (some (dump_of p)) ((header + length p.bytes) % dword) infinite flags h.queue

  -- The loops over `_net_hosts` of `NetGroup_host_broadcast` and `NetGroup_router_delete`.
  unfoldable pub post_each : (Host os → Bool) → Packet → Cmd (List (Host os)) (Unit {0})
  unfolding post
  post_each goes p [] = done tt []
  post_each goes p (h ∷ hosts) =
      let rest = post_each goes p hosts in
      if goes h then after_post h hosts (post p 0 h) rest else behind_host h rest

  -- `WQ_send` to the queue of the host at an address; where there is none, the address is wild.
  unfoldable pub post_at : ℕ → Packet → ℕ → Cmd (List (Host os)) (Unit {0})
  unfolding post
  post_at a p flags [] = fault
  post_at a p flags (h ∷ hosts) =
      let rest = post_at a p flags hosts in
      if h.address == a
      then after_post h hosts (post p flags h) (done tt hosts)
      else behind_host h rest

  -- `stale` is what the array held before in the field that is not set.
  unfoldable pub host_unicast :
      ℕ → Option ℕ → Option (Host os) → List ℕ → ℕ → Cmd (List (Host os)) (Unit {0})
  unfolding post_at
  host_unicast stale none host par flag = pure tt
  host_unicast stale (some target) host par flag =
      post_at target (record { host = name_of host; route_id = stale; cast = unicast; bytes = par })
        flag

  unfoldable pub host_broadcast : ℕ → Option (Host os) → List ℕ → Cmd (List (Host os)) (Unit {0})
  unfolding post_each
  host_broadcast stale none par = pure tt
  host_broadcast stale (some host) par =
      post_each (λ h. not (h.address == host.address))
        (record {
          host = host.register_data.host_name;
          route_id = stale;
          cast = broadcast;
          bytes = par;
        })

  -- The loop of `NetGroup_host_multicast` over the hosts in a row.
  unfoldable pub post_all : List ℕ → Packet → Cmd (List (Host os)) (Unit {0})
  unfolding post_at
  post_all [] p = pure tt
  post_all (a ∷ rest) p = post_at a p 0 >> post_all rest p

  unfoldable pub host_multicast :
      ℕ → Routes → Option (Host os) → ℕ → List ℕ → Cmd (List (Host os)) (Unit {0})
  unfolding post_all multicast_to
  host_multicast max_routeindex routes none index par = pure tt
  host_multicast max_routeindex routes (some host) index par =
      if leb max_routeindex index
      then pure tt
      else post_all (multicast_to routes index host.address) (record {
        host = host.register_data.host_name;
        route_id = index;
        cast = multicast;
        bytes = par;
      })

  -- A packet of `NetGroup_router_delete`, which only sets its kind.
  abbrev pub bare_packet : ℕ → ℕ → Cast → Packet
  bare_packet stale_host stale_route c = record {
    host = stale_host;
    route_id = stale_route;
    cast = c;
    bytes = [];
  }

  -- The loops of `NetGroup_router_delete` over the hosts. The third, which would clean them
  -- up, starts where the second ended, at NULL, and does nothing.
  unfoldable pub delete_hosts : ℕ → ℕ → Cmd (List (Host os)) (Unit {0})
  unfolding post_each
  delete_hosts stale_host stale_route =
      post_each (λ h. true) (bare_packet stale_host stale_route disconnect)
      >> post_each (λ h. true) (bare_packet stale_host stale_route closing)
