-- ===== src/NetGroup/Members.antt =====
-- What memberships come to.
use workqueue.NetGroup.Routes.{
  new_routes, receivers, membership_drop, drop_row, multicast_to, Row, insert_from, membership_join,
  scan, Routes, join_row,
}
use workqueue.Prelude.{
  replicate, All-set, All-get_elem?, All, ◌∙◌, List, arith, set, ◌+◌, Bool-cases, ap, ◌≡◌,
  get_elem?, length, Option, ℕ, zero, suc, refl, none, some, false, inl, inr, [], ◌∷◌,
}

scan-end :
    (row : Row) (host i : ℕ) → (scan row host i).0 ≡ false → (scan row host i).1 ≡ i + length row
unfolding scan
scan-end [] host i e = omega arith
scan-end (c ∷ row) host i e = ground (arith, scan-end row host (i + 1))

insert_from-end : (row : Row) (host : ℕ) → insert_from (length row) row host ≡ row
unfolding insert_from
insert_from-end [] host = refl
insert_from-end (c ∷ row) host = ap (λ (r : Row). c ∷ r) (insert_from-end row host)

join_row-keeps : (row : Row) (host : ℕ) → join_row row host ≡ row
unfolding join_row
join_row-keeps row host = elim (Bool-cases (scan row host 0).0) [
  | inl dup ↦ rw dup refl
  | inr new ↦
      let last : (scan row host 0).1 ≡ length row = omega (arith, scan-end row host 0 new) in
      rw (new, last) (insert_from-end row host)
]

set-same :
    (routes : Routes) (i : ℕ) {row : Row}
    → get_elem? routes i ≡ some row
    → set routes i row ≡ routes
set-same [] i e = refl
set-same (r ∷ routes) zero e = ground arith
set-same (r ∷ routes) (suc i) e = ap (λ (l : Routes). r ∷ l) (set-same routes i e)

on_row-same :
    (routes : Routes) (i : ℕ) (change : Row → Row) (o : Option Row)
    → ((row : Row) → change row ≡ row)
    → get_elem? routes i ≡ o
    → (elim o [ none ↦ routes | some row ↦ set routes i (change row) ]) ≡ routes
on_row-same routes i change none same e = refl
on_row-same routes i change (some row) same e = ap (set routes i) (same row) ∙ set-same routes i e

-- `NetGroup_membership_join` never changes the table: the index with which it looks for a free cell
-- is behind the last cell by then.
pub membership_join-keeps :
    (index : ℕ) (routes : Routes) (host : Option ℕ) → membership_join index routes host ≡ routes
unfolding membership_join
membership_join-keeps index routes none = refl
membership_join-keeps index routes (some host) =
    on_row-same routes index (λ row. join_row row host) _ (λ row. join_row-keeps row host) refl

-- A change of memberships.
pub data Change : Type 0 where
  join : ℕ → Option ℕ → Change
  drop : ℕ → Option ℕ → Change

unfoldable pub change_all : List Change → Routes → Routes
change_all [] routes = routes
change_all (join i h ∷ cs) routes = change_all cs (membership_join i routes h)
change_all (drop i h ∷ cs) routes = change_all cs (membership_drop i routes h)

abbrev IsBlank : Row → Type 0
IsBlank row = All (λ (c : Option ℕ). c ≡ none) row

drop_row-IsBlank : (row : Row) (host : ℕ) → IsBlank row → IsBlank (drop_row row host)
unfolding drop_row
drop_row-IsBlank [] host h = tt
drop_row-IsBlank (none ∷ row) host (h, hs) = (refl, drop_row-IsBlank row host hs)
drop_row-IsBlank (some x ∷ row) host (h, hs) = cc

receivers-none : (row : Row) (host : ℕ) → IsBlank row → receivers row host ≡ []
unfolding receivers
receivers-none [] host h = refl
receivers-none (none ∷ row) host (h, hs) = receivers-none row host hs
receivers-none (some x ∷ row) host (h, hs) = cc

All-on_row :
    (routes : Routes) (i : ℕ) (host : ℕ) (o : Option Row)
    → All IsBlank routes
    → get_elem? routes i ≡ o
    → All IsBlank (elim o [ none ↦ routes | some row ↦ set routes i (drop_row row host) ])
All-on_row routes i host none h e = h
All-on_row routes i host (some row) h e =
    All-set IsBlank routes i (drop_row row host) h
      (drop_row-IsBlank row host (All-get_elem? IsBlank routes i h e))

membership_drop-IsBlank :
    (i : ℕ) (routes : Routes) (host : Option ℕ)
    → All IsBlank routes
    → All IsBlank (membership_drop i routes host)
unfolding membership_drop
membership_drop-IsBlank i routes none h = h
membership_drop-IsBlank i routes (some host) h = All-on_row routes i host _ h refl

to_none :
    (host : ℕ) (o : Option Row) (routes : Routes) (i : ℕ)
    → All IsBlank routes
    → get_elem? routes i ≡ o
    → (elim o [ none ↦ [] | some row ↦ receivers row host ]) ≡ []
to_none host none routes i h e = refl
to_none host (some row) routes i h e = receivers-none row host (All-get_elem? IsBlank routes i h e)

multicast_from :
    (cs : List Change) (routes : Routes) (i host : ℕ)
    → All IsBlank routes
    → multicast_to (change_all cs routes) i host ≡ []
unfolding change_all multicast_to
multicast_from [] routes i host h = to_none host _ routes i h refl
multicast_from (join j x ∷ cs) routes i host h =
    multicast_from cs _ i host (rw (membership_join-keeps j routes x) h)
multicast_from (drop j x ∷ cs) routes i host h =
    multicast_from cs _ i host (membership_drop-IsBlank j routes x h)

All-replicate {ℓ κ} : {A : Type ℓ} (P : A → Type κ) (n : ℕ) (a : A) → P a → All P (replicate n a)
All-replicate P zero a h = tt
All-replicate P (suc n) a h = (h, All-replicate P n a h)

-- Whatever memberships are joined and dropped on the table of a new router, a multicast of any host
-- on any route is sent to no host.
pub multicast_reaches_none :
    (routes hosts : ℕ) (cs : List Change) (index host : ℕ)
    → multicast_to (change_all cs (new_routes routes hosts)) index host ≡ []
multicast_reaches_none routes hosts cs index host =
    multicast_from cs _ index host
      (All-replicate IsBlank routes _ (All-replicate (λ (c : Option ℕ). c ≡ none) hosts none refl))
