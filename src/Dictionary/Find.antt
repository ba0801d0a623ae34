-- ===== src/Dictionary/Find.antt =====
-- What a lookup finds behind a new entry.
use workqueue.Prelude.{arith, ap, if◌then◌else◌, ◌≡◌, true, false, refl, none, some, [], ◌∷◌}
use workqueue.Dictionary.Keys.{Text, same, same-eq}
use workqueue.Dictionary.Calls.{Dictionary, Keyvalue, find, link}

-- An entry with the key j is none with another key.
same_apart : (c k j : Text) → same k j ≡ true → same c k ≡ same c j
same_apart c k j e = ap (same c) (same-eq k j e)

pub link-find :
    (d : Dictionary) (kv : Keyvalue) (j : Text)
    → find d kv.k ≡ none
    → find (link d kv) j ≡ (if same kv.k j then some kv else find d j)
unfolding find link
link-find [] kv j e = refl
link-find (cur ∷ next) kv j e =
    let deeper : same cur.k kv.k ≡ false
        → find (link next kv) j ≡ (if same kv.k j then some kv else find next j) =
      λ h. link-find next kv j (ground (arith, h, e)) in
    ground (arith, deeper, same_apart cur.k kv.k j)
