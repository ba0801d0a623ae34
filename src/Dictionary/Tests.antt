-- ===== src/Dictionary/Tests.antt =====
-- A dictionary with two entries, and the theorems at it.
use workqueue.Platform.Run.{fault, done}
use workqueue.Dictionary.Calls.{with_block, minus_one, find, Dictionary}
use workqueue.Prelude.{◌==◌, false, ◌≡◌, List, refl, none, some, true, [], ◌∷◌}
use workqueue.Dictionary.Calls.{add_int, add_char, copyint, haskey, add, link}
use workqueue.Dictionary.Keys.{same}
use workqueue.Dictionary.Adds.{
  perform, in_turn, on_table, serve-answers, answers, Request, serve, put_int, put_char, get_int,
  ask, number,
}
use workqueue.Platform.Codes.{wqenomem, wqok, wqealready}

abbrev pair : Dictionary
pair =
    record { k = 0x61 ∷ []; vc = none; vi = 7 }
    ∷ record { k = 0x62 ∷ []; vc = some (0x78 ∷ []); vi = 0 }
    ∷ []

abbrev calls : List Request
calls =
    put_int (λ n. true) (some (0x63 ∷ [])) 9
    ∷ put_char (λ n. true) (some (0x61 ∷ [])) none
    ∷ get_int (some (0x63 ∷ []))
    ∷ ask (some (0x64 ∷ []))
    ∷ []

test_calls :
    serve calls pair
    ≡ done
        (number wqok ∷ number wqealready ∷ number 9 ∷ number minus_one ∷ [])
        (link pair (record { k = 0x63 ∷ []; vc = none; vi = 9 }))
unfolding in_turn perform add_int add_char with_block copyint haskey add find same link
test_calls = refl

-- A string that is not copied, and a block that is not given.
test_refused :
    (serve (put_int (λ n. n == 0) (some (0x63 ∷ [])) 9 ∷ []) pair
      ≡ done (number wqenomem ∷ []) pair)
    × (serve (put_int (λ n. false) (some (0x63 ∷ [])) 9 ∷ []) pair ≡ fault)
unfolding in_turn perform add_int with_block add
test_refused = (refl, refl)

serve-answers_example : on_table (serve calls pair) ≡ answers calls (find pair)
serve-answers_example = serve-answers calls pair
