-- ===== src/NetGroup/Routing.antt =====
-- What a host does with a message: `host_routing`.
use workqueue.Prelude.{◌==◌, if◌then◌else◌, Bool, Option, ℕ, List, none, some, true, false, [], ◌∷◌}

-- enum cast
pub data Cast : Type 0 where
  unicast broadcast multicast disconnect closing : Cast

-- struct default_par, with the bytes behind it
pub record Packet : Type 0 where
  pub host : ℕ
  pub route_id : ℕ
  pub cast : Cast
  pub bytes : List ℕ

-- A call of one of the host's functions, with its arguments.
pub data Called : Type 0 where
  recv_from_unicast : List ℕ → ℕ → Called
  recv_from_broadcast : List ℕ → ℕ → Called
  recv_from_multicast : List ℕ → ℕ → ℕ → Called
  register_init : ℕ → Called
  register_deinit : ℕ → Called
  alarmed : ℕ → Called

-- Which of the receiving functions are not NULL.
pub record Handlers : Type 0 where
  pub unicasts : Bool
  pub broadcasts : Bool
  pub multicasts : Bool

-- A call, and TRUE; or a call through NULL.
abbrev pub calling : Bool → Called → Option (Bool × List Called)
calling handled c = if handled then some (true, c ∷ []) else none

-- The number of an enumerator.
abbrev pub number_of : Cast → ℕ
number_of unicast = 0
number_of broadcast = 1
number_of multicast = 2
number_of disconnect = 3
number_of closing = 4

-- The tests of the source in their order. The third, before the call for a multicast, is one for
-- `unicast` again.
unfoldable pub host_routing : Handlers → Packet → Option (Bool × List Called)
host_routing hs p =
    if number_of p.cast == number_of unicast
    then calling hs.unicasts (recv_from_unicast p.bytes p.host)
    else if number_of p.cast == number_of broadcast
    then calling hs.broadcasts (recv_from_broadcast p.bytes p.host)
    else if number_of p.cast == number_of unicast
    then calling hs.multicasts (recv_from_multicast p.bytes p.host p.route_id)
    else if number_of p.cast == number_of disconnect
    then some (true, register_deinit 1 ∷ [])
    else some (false, [])
