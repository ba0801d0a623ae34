-- ===== src/Dictionary/Removal.antt =====
-- Removal from a dictionary, and its deletion.
use workqueue.Dictionary.Keys.{Text}
use workqueue.Dictionary.Calls.{Dictionary, haskey, find, delete, remove, remove_from}
use workqueue.Prelude.{◌∙◌, ◌==◌, arith, if◌then◌else◌, ◌≡◌, Option, refl, none, some, [], ◌∷◌}
use workqueue.Platform.Run.{done, fault}

remove_from_lem :
    (d : Dictionary) (k : Text)
    → remove_from d k ≡ (elim (find d k) [ some e ↦ fault | none ↦ done tt d ])
unfolding remove_from find
remove_from_lem [] k = refl
remove_from_lem (cur ∷ next) k = ground (arith, remove_from_lem next k)

-- `Dictionary_remove` of a key that is in the dictionary reads the block that it has freed; of any
-- other key, and of NULL, it returns and leaves the dictionary as it was.
pub remove_lem :
    (d : Dictionary) (k : Option Text) → remove k d ≡ (if haskey d k == 1 then fault else done tt d)
unfolding remove haskey
remove_lem d none = refl
remove_lem d (some k) = remove_from_lem d k ∙ ground arith

-- `Dictionary_delete` returns for every pointer without freeing an entry or clearing the pointer.
pub delete_keeps : (pd : Option (Option Dictionary)) → delete pd ≡ done [] pd
unfolding delete
delete_keeps none = refl
delete_keeps (some p) = refl
