-- ===== src/Dictionary/Calls.antt =====
-- The functions of the dictionary. `grants n` says whether the n-th allocation of a call, a block
-- or a copy of a string, is given. The heap is not in its test mode: a block is `malloc`ed and
-- cleared without a test. An int is a number below 2 ^ 32 that stands for its bits.
use workqueue.Prelude.{
  ◌||◌, ◌-◌, not, ◌^◌, ◌&&◌, with_some, ℕ, if◌then◌else◌, List, Bool, Option, none, some, true,
  false, [], ◌∷◌,
}
use workqueue.Dictionary.Keys.{Text, same}
use workqueue.Platform.Codes.{wqok, wqenomem, wqeinval, wqealready}
use workqueue.Platform.Run.{Cmd, Run, done, fault, waiting}

-- struct Keyvalue, and struct Dictionary as the list that `kvs` leads to
pub record Keyvalue : Type 0 where
  pub k : Text
  pub vc : Option Text
  pub vi : ℕ

abbrev pub Dictionary : Type 0
Dictionary = List Keyvalue

-- The loop of all lookups: the first entry with the key.
unfoldable pub find : Dictionary → Text → Option Keyvalue
find [] k = none
find (cur ∷ next) k = let rest = find next k in if same cur.k k then some cur else rest

-- The loop to the last entry, behind which the new one is put.
unfoldable pub link : Dictionary → Keyvalue → Dictionary
link [] kv = kv ∷ []
link (cur ∷ next) kv = cur ∷ link next kv

-- `strdup`, of NULL never called
abbrev pub copied_text : Bool → Option Text → Bool
copied_text granted none = true
copied_text granted (some v) = granted

-- What both functions do with the entry: `granted` says whether its strings were copied.
unfoldable pub add : Bool → Keyvalue → Cmd Dictionary ℕ
add false kv d = done wqenomem d
add true kv d = elim (find d kv.k) [ some dup ↦ done wqealready d | none ↦ done wqok (link d kv) ]

-- `libwq_malloc` clears the block, also where there is none, before the test for NULL.
unfoldable pub with_block : Bool → Cmd Dictionary ℕ → Cmd Dictionary ℕ
with_block false rest d = fault
with_block true rest d = rest d

module _ (grants : ℕ → Bool) where
  unfoldable pub add_int : Option Text → ℕ → Cmd Dictionary ℕ
  add_int none v d = done wqeinval d
  add_int (some k) v d =
      with_block (grants 0) (add (grants 1) (record { k = k; vc = none; vi = v })) d

  unfoldable pub add_char : Option Text → Option Text → Cmd Dictionary ℕ
  add_char none v d = done wqeinval d
  add_char (some k) v d =
      with_block (grants 0)
        (add (grants 1 && copied_text (grants 2) v) (record { k = k; vc = v; vi = 0 })) d

unfoldable pub refchar : Dictionary → Option Text → Option Text
refchar d none = none
refchar d (some k) = with_some (find d k) (λ cur. cur.vc)

unfoldable pub allocchar : Bool → Dictionary → Option Text → Option Text
allocchar granted d none = none
allocchar granted d (some k) =
    with_some (find d k) (λ cur. with_some cur.vc (λ vc. if granted then some vc else none))

unfoldable pub copyint : Dictionary → Option Text → ℕ
copyint d none = 0
copyint d (some k) = elim (find d k) [ some cur ↦ cur.vi | none ↦ 0 ]

-- The int -1.
abbrev pub minus_one : ℕ
minus_one = 2 ^ 32 - 1

unfoldable pub haskey : Dictionary → Option Text → ℕ
haskey d none = minus_one
haskey d (some k) = elim (find d k) [ some cur ↦ 1 | none ↦ minus_one ]

-- The loop of the removal: once an entry is unlinked and freed, its `next` is read.
unfoldable pub remove_from : Dictionary → Text → Run Dictionary (Unit {0})
remove_from [] k = done tt []
remove_from (cur ∷ next) k =
    let rest = remove_from next k in
    if same cur.k k then fault else elim rest [
      | done u left ↦ done u (cur ∷ left)
      | waiting left ↦ waiting (cur ∷ left)
      | fault ↦ fault
    ]

unfoldable pub remove : Option Text → Dictionary → Run Dictionary (Unit {0})
remove none d = done tt d
remove (some k) d = remove_from d k

abbrev pub given : Option (Option Dictionary) → Bool
given none = false
given (some p) = true

-- Behind the test of `Dictionary_delete`: what is freed, and the caller's pointer.
unfoldable pub free_entries :
    Option (Option Dictionary) → Run (Option (Option Dictionary)) Dictionary
free_entries none = fault
free_entries (some none) = fault
free_entries (some (some kvs)) = done kvs (some none)

-- `Dictionary_delete`: `!pd || !(!pd)`
unfoldable pub delete : Option (Option Dictionary) → Run (Option (Option Dictionary)) Dictionary
delete pd = if not (given pd) || not (not (given pd)) then done [] pd else free_entries pd
