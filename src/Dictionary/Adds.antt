-- ===== src/Dictionary/Adds.antt =====
-- Calls of one dictionary in a row, against the finite map that it stands for.
use workqueue.Platform.Run.{waiting, fault, and_then, pure, ◌>>=◌, Run, Cmd, done}
use workqueue.Dictionary.Find.{link-find}
use workqueue.Dictionary.Calls.{
  with_block, link, haskey, minus_one, refchar, copyint, add_char, find, copied_text, Dictionary,
  add_int, add, Keyvalue,
}
use workqueue.Prelude.{
  ◌∙◌, with_some, if◌then◌else◌, ◌≡◌, Bool, List, Option, ℕ, ◌&&◌, refl, none, some, true, false,
  [], ◌∷◌,
}
use workqueue.Dictionary.Keys.{Text, same}
use workqueue.Platform.Codes.{wqok, wqenomem, wqeinval, wqealready}

-- A call, an adding one with the allocations that it is given.
pub data Request : Type 0 where
  put_int : (ℕ → Bool) → Option Text → ℕ → Request
  put_char : (ℕ → Bool) → Option Text → Option Text → Request
  get_int : Option Text → Request
  get_char : Option Text → Request
  ask : Option Text → Request

-- What the caller sees.
pub data Event : Type 0 where
  number : ℕ → Event
  text : Option Text → Event

abbrev pub numbered : {S : Type 0} → Run S ℕ → Run S Event
numbered r = and_then r (λ c. pure (number c))

unfoldable pub perform : Request → Cmd Dictionary Event
perform (put_int grants k v) d = numbered (add_int grants k v d)
perform (put_char grants k v) d = numbered (add_char grants k v d)
perform (get_int k) d = done (number (copyint d k)) d
perform (get_char k) d = done (text (refchar d k)) d
perform (ask k) d = done (number (haskey d k)) d

-- Requests in a row, each on the state that the one before left.
unfoldable pub in_turn : {S : Type 0} → (Request → Cmd S Event) → List Request → Cmd S (List Event)
in_turn step [] = pure []
in_turn step (q ∷ qs) = step q >>= λ e. in_turn step qs >>= λ es. pure (e ∷ es)

abbrev pub serve : List Request → Cmd Dictionary (List Event)
serve = in_turn perform

-- A map from keys to entries.
abbrev pub Table : Type 0
Table = Text → Option Keyvalue

abbrev pub insert : Table → Keyvalue → Table
insert m kv j = if same kv.k j then some kv else m j

-- An entry is put where its key is free.
unfoldable pub put_new : Keyvalue → Cmd Table Event
put_new kv m = elim (m kv.k) [
  | some e ↦ done (number wqealready) m
  | none ↦ done (number wqok) (insert m kv)
]

-- Without a block for the entry the access is undefined; without the copies there is no memory.
abbrev pub obtained : Bool → Bool → Keyvalue → Cmd Table Event
obtained block copies kv m =
    if block then (if copies then put_new kv m else done (number wqenomem) m) else fault

abbrev pub look : Table → Option Text → Option Keyvalue
look m none = none
look m (some k) = m k

unfoldable pub answer_to : Request → Cmd Table Event
answer_to (put_int grants none v) m = done (number wqeinval) m
answer_to (put_int grants (some k) v) m =
    obtained (grants 0) (grants 1) (record { k = k; vc = none; vi = v }) m
answer_to (put_char grants none v) m = done (number wqeinval) m
answer_to (put_char grants (some k) v) m =
    obtained (grants 0) (grants 1 && copied_text (grants 2) v) (record { k = k; vc = v; vi = 0 }) m
answer_to (get_int k) m = done (number (elim (look m k) [ some e ↦ e.vi | none ↦ 0 ])) m
answer_to (get_char k) m = done (text (with_some (look m k) (λ e. e.vc))) m
answer_to (ask k) m = done (number (elim (look m k) [ some e ↦ 1 | none ↦ minus_one ])) m

abbrev pub answers : List Request → Cmd Table (List Event)
answers = in_turn answer_to

-- A run on a dictionary as a run on the map that it stands for.
abbrev pub on_table : {A : Type 0} → Run Dictionary A → Run Table A
on_table (done a d) = done a (find d)
on_table (waiting d) = waiting (find d)
on_table fault = fault

-- By what the search for the key of the new entry found.
by_found :
    (d : Dictionary) (kv : Keyvalue) (o : Option Keyvalue)
    → find d kv.k ≡ o
    → on_table (numbered (elim o [ some dup ↦ done wqealready d | none ↦ done wqok (link d kv) ]))
      ≡ (elim o [
        | some e ↦ done (number wqealready) (find d)
        | none ↦ done (number wqok) (insert (find d) kv)
      ])
by_found d kv (some e) taken = refl
by_found d kv none free = λ i. done (number wqok) (λ j. link-find d kv j free i)

add-obtained :
    (block copies : Bool) (d : Dictionary) (kv : Keyvalue)
    → on_table (numbered (with_block block (add copies kv) d)) ≡ obtained block copies kv (find d)
unfolding add put_new with_block
add-obtained false copies d kv = refl
add-obtained true false d kv = refl
add-obtained true true d kv = by_found d kv (find d kv.k) refl

perform_lem : (q : Request) (d : Dictionary) → on_table (perform q d) ≡ answer_to q (find d)
unfolding perform add_int add_char copyint refchar haskey answer_to
perform_lem (put_int grants none v) d = refl
perform_lem (put_int grants (some k) v) d = add-obtained _ _ d _
perform_lem (put_char grants none v) d = refl
perform_lem (put_char grants (some k) v) d = add-obtained _ _ d _
perform_lem (get_int none) d = refl
perform_lem (get_int (some k)) d = refl
perform_lem (get_char none) d = refl
perform_lem (get_char (some k)) d = refl
perform_lem (ask none) d = refl
perform_lem (ask (some k)) d = refl

-- A map is seen behind the first call of a row as it is behind all of them.
on_table-and_then :
    {A B : Type 0} (r : Run Dictionary A) (k : A → Cmd Dictionary B) (k' : A → Cmd Table B)
    → ((a : A) (d : Dictionary) → on_table (k a d) ≡ k' a (find d))
    → on_table (and_then r k) ≡ and_then (on_table r) k'
on_table-and_then (done a d) k k' same_next = same_next a d
on_table-and_then (waiting d) k k' same_next = refl
on_table-and_then fault k k' same_next = refl

-- No sequence of adding and looking up, with the heap outside of its test mode, tells a
-- dictionary from the map that it stands for, whatever allocations fail: the codes and the
-- values are the map's, where a key that is taken is refused and a call without memory for its
-- strings changes nothing, the dictionary that is left stands for the map left, and a call
-- without a block for its entry is the undefined access of both.
pub serve-answers :
    (qs : List Request) (d : Dictionary) → on_table (serve qs d) ≡ answers qs (find d)
unfolding in_turn
serve-answers [] d = refl
serve-answers (q ∷ qs) d =
    on_table-and_then (perform q d) (λ e. serve qs >>= λ es. pure (e ∷ es))
      (λ e. answers qs >>= λ es. pure (e ∷ es))
      (λ e d'.
        on_table-and_then (serve qs d') (λ es. pure (e ∷ es)) (λ es. pure (e ∷ es)) (λ es d''. refl)
        ∙ (λ i. and_then (serve-answers qs d' i) (λ es. pure (e ∷ es))))
    ∙ (λ i. and_then (perform_lem q d i) (λ e. answers qs >>= λ es. pure (e ∷ es)))
