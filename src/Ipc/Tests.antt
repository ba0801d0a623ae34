-- ===== src/Ipc/Tests.antt =====
-- Runs at concrete inputs.
use workqueue.Prelude.{
  inl, ◌∙◌, sym, ap, arith, ℕ, if◌then◌else◌, Option, ◌≡◌, Bool, refl, none, some, true, false, [],
  ◌∷◌,
}
use workqueue.Platform.Run.{done, waiting}
use workqueue.Platform.Clock.{Timespec}
use workqueue.Platform.Counting.{counting}
use workqueue.Ipc.Calls.{ipc_threshold, ipc_send, owner_recv, WqIpc, Place}
use workqueue.Ipc.Recv.{owner_recv_waits}
use workqueue.Ipc.Send.{Answers, ipc_send_lem}
use workqueue.Ipc.Open.{
  ipc_open-refused, ipc_open, Name, wqi_mutex, wqi_reader, wqi_writer, wq_ack, Named, refused,
}

abbrev noon : Timespec
noon = record { tv_sec = 43200; tv_nsec = 0 }

abbrev empty_place : Place
empty_place = record { sem_flag = false; reading = false; event = 0 ∷ 0 ∷ [] }

abbrev one_waits : WqIpc counting
one_waits = record {
  bowner = true;
  nq = 2;
  sq = 2;
  open_state = true;
  cursor_head = 0;
  cursor_tail = 1;
  places = record { sem_flag = false; reading = false; event = 7 ∷ 8 ∷ [] } ∷ empty_place ∷ [];
  ack = 0;
  reader = 1;
  writer = 1;
  mutex = 1;
}

owner_recv_waits_example :
    (t : WqIpc counting) × (u : WqIpc counting) × (v : WqIpc counting) × (owner_recv counting noon
        1000 one_waits
      ≡ waiting t)
    × (ipc_send counting noon (some (5 ∷ [])) 1 10 0 (record t { bowner = false }) ≡ waiting u)
    × (ipc_threshold counting noon 4 one_waits ≡ waiting v)
owner_recv_waits_example =
    owner_recv_waits {os = counting} noon 1000 3 one_waits (5 ∷ []) 1 10 0
      (record { free = refl; inside = omega arith }) refl (omega arith) (omega arith) (omega arith)

abbrev client : WqIpc counting
client = record one_waits { bowner = false }

ipc_send_lem_example :
    (code : ℕ) × (t : WqIpc counting) × (ipc_send counting noon (some (5 ∷ [])) 1 10 0 client
      ≡ done (code, none) t)
    × Answers {os = counting} noon client code t (5 ∷ []) 1
ipc_send_lem_example =
    ipc_send_lem {os = counting} noon (5 ∷ []) 1 10 0 client
      (record {
        client = refl;
        some_bytes = omega arith;
        fits = omega arith;
        readable = omega arith;
        free = omega arith;
        inside = omega arith;
      })
      refl (inl (omega arith))

abbrev same_name : Name → Name → Bool
same_name wqi_mutex wqi_mutex = true
same_name wqi_reader wqi_reader = true
same_name wqi_writer wqi_writer = true
same_name wq_ack wq_ack = true
same_name a b = false

abbrev create : Bool → Name → (Name → Bool) → Option (Name → Bool)
create true n r = none
create false n r = some (λ m. if same_name m n then true else r m)

same_itself : (n : Name) → same_name n n ≡ true
same_itself wqi_mutex = refl
same_itself wqi_reader = refl
same_itself wqi_writer = refl
same_itself wq_ack = refl

abbrev seen : Name → Option (Name → Bool) → Bool
seen n none = false
seen n (some r) = r n

create_makes :
    (taken : Bool) (n : Name) (r : Name → Bool) {t : Name → Bool}
    → create taken n r ≡ some t
    → t n ≡ true
create_makes true n r e = cc
create_makes false n r {t} e =
    let made : seen n (some (λ (m : Name). if same_name m n then true else r m)) ≡ seen n (some t) =
      ap (seen n) e in
    sym made ∙ (λ i. if same_itself n i then true else r n)

abbrev names : Named
names = record {
  Registry = Name → Bool;
  exists = λ n r. r n;
  sem_create = λ n i r. create (r n) n r;
  sem_attach = λ n r. if r n then some r else none;
  exists-sem_create = λ n i r e. create_makes (r n) n r e;
  sem_create-exists = λ n i r e. rw e refl;
}

ipc_open-refused_example :
    (t : Name → Bool) × (ipc_open names true 16 3 true (some (0, 0)) true (λ n. false)
      ≡ refused true t)
ipc_open-refused_example =
    ipc_open-refused names 16 1 (some (0, 0)) true (λ n. false)
      (λ m. if same_name m wqi_mutex then true else false) (omega arith) refl
