-- ===== src/NetGroup/Routes.antt =====
-- The routing table of a router: a row for each route, in which a cell holds a host or NULL. A host
-- is the address of its `struct net_host`, and a row has a cell for each host of the router.
use workqueue.Prelude.{
  ◌==◌, set, ◌+◌, Bool, if◌then◌else◌, get_elem?, replicate, ℕ, Option, List, zero, suc, none, some,
  true, false, [], ◌∷◌,
}

abbrev pub Row : Type 0
Row = List (Option ℕ)

abbrev pub is_host : Option ℕ → ℕ → Bool
is_host none host = false
is_host (some h) host = h == host

abbrev pub is_free : Option ℕ → Bool
is_free none = true
is_free (some h) = false

-- The loop of `NetGroup_membership_join` that looks for the host: whether it is there, and where the
-- index stops.
unfoldable pub scan : Row → ℕ → ℕ → Bool × ℕ
scan [] host i = (false, i)
scan (c ∷ row) host i =
    let rest = scan row host (i + 1) in if is_host c host then (true, i) else rest

-- The loop that puts the host into the first free cell, from an index on.
unfoldable pub insert_from : ℕ → Row → ℕ → Row
insert_from i [] host = []
insert_from (suc i) (c ∷ row) host = c ∷ insert_from i row host
insert_from zero (c ∷ row) host =
    let rest = insert_from zero row host in if is_free c then some host ∷ row else c ∷ rest

-- Both loops share one index.
unfoldable pub join_row : Row → ℕ → Row
join_row row host = let (dup, i) = scan row host 0 in if dup then row else insert_from i row host

-- The loop of `NetGroup_membership_drop`.
unfoldable pub drop_row : Row → ℕ → Row
drop_row [] host = []
drop_row (c ∷ row) host =
    let rest = drop_row row host in if is_host c host then none ∷ row else c ∷ rest

abbrev pub Routes : Type 0
Routes = List Row

-- A call on the row of an index, which does nothing beyond the last.
abbrev pub on_row : Routes → ℕ → (Row → Row) → Routes
on_row routes index change = elim (get_elem? routes index) [
  | none ↦ routes
  | some row ↦ set routes index (change row)
]

-- `NetGroup_membership_join` and `NetGroup_membership_drop`; the host is NULL or an address.
unfoldable pub membership_join : ℕ → Routes → Option ℕ → Routes
membership_join index routes none = routes
membership_join index routes (some host) = on_row routes index (λ row. join_row row host)

unfoldable pub membership_drop : ℕ → Routes → Option ℕ → Routes
membership_drop index routes none = routes
membership_drop index routes (some host) = on_row routes index (λ row. drop_row row host)

-- The hosts in the cells of a row other than the sender, in their order.
unfoldable pub receivers : Row → ℕ → List ℕ
receivers [] host = []
receivers (none ∷ row) host = receivers row host
receivers (some h ∷ row) host =
    let rest = receivers row host in if h == host then rest else h ∷ rest

-- The hosts to whose queues `NetGroup_host_multicast` sends.
unfoldable pub multicast_to : Routes → ℕ → ℕ → List ℕ
multicast_to routes index host = elim (get_elem? routes index) [
  | none ↦ []
  | some row ↦ receivers row host
]

-- A new table of so many routes and hosts.
abbrev pub new_routes : ℕ → ℕ → Routes
new_routes routes hosts = replicate routes (replicate hosts none)
