-- ===== src/Debug/Messages.antt =====
-- What the sinks of debug.c are given.
use workqueue.Debug.Sinks.{
  Sink, DebugPar, prefix_of, debug, to_console, write_at, string_at, debug_buffer,
}
use workqueue.Prelude.{
  if◌then◌else◌, take-append_long, not, dec_lt, map, ◌||◌, all_below-at, Option, all_below, bit_or,
  none, take-append_short, length-append, length-take_le, take-append, take_whole, append_assoc,
  ◌<◌, sym, All-take, true, zero, suc, drop, ◌∙◌, ◌+◌, ltb, ◌-◌, ap, length-take, ◌==◌, arith, take,
  replicate, ◌≢◌, ◌≡◌, set, All-append, length, ◌≤◌, All, ◌++◌, ℕ, List, refl, some, false, [], ◌∷◌,
}

-- A string has no byte that is zero.
abbrev pub IsText : List ℕ → Type 0
IsText us = All (λ (u : ℕ). u ≢ 0) us

-- A string that ends at the end of the buffer at the latest, which is set to zero.
string_at-set :
    (us rest : List ℕ) (n : ℕ)
    → IsText us
    → length us ≤ n
    → string_at (set (us ++ 0 ∷ rest) n 0) ≡ us
unfolding string_at
string_at-set [] rest zero a small = refl
string_at-set [] rest (suc n) a small = refl
string_at-set (u ∷ us) rest zero (nz, a) small = absurd (omega arith)
string_at-set (u ∷ us) rest (suc n) (nz, a) small =
    let here : (u == 0) ≡ false = ground (arith, nz) in
    rw here (ap (λ (l : List ℕ). u ∷ l) (string_at-set us rest n a (omega arith)))

drop-replicate : (n : ℕ) → drop {A = ℕ} n (replicate (suc n) 0) ≡ 0 ∷ []
drop-replicate zero = refl
drop-replicate (suc n) = drop-replicate n

pub IsText-append : (us vs : List ℕ) → IsText us → IsText vs → IsText (us ++ vs)
IsText-append us vs a b = All-append (λ (u : ℕ). u ≢ 0) us vs a b

-- The prefix does not fit the buffer.
long_prefix :
    (n : ℕ) (p text : List ℕ)
    → IsText p
    → n ≤ length p
    → string_at (debug_buffer (suc n) (some p) text) ≡ take n p
unfolding debug_buffer
long_prefix n p text a long =
    let l : length (take n p) ≡ n = length-take n p long in
    let size : suc n - 1 ≡ n = omega arith in
    let test : ltb (length p) n ≡ false = ground arith in
    let behind : 0 + length (take n p) ≡ n = omega (arith, l) in
    let enough : length (take n p) ≤ n = omega (arith, l) in
    let cut_text : IsText (take n p) = All-take (λ (u : ℕ). u ≢ 0) n p a in
    let end : drop (0 + length (take n p)) (replicate (suc n) 0) ≡ 0 ∷ [] =
      (λ i. drop (behind i) (replicate (suc n) 0)) ∙ drop-replicate n in
    rw (size, test)
      ((λ i. string_at (set (take n p ++ end i) n 0))
        ∙ string_at-set (take n p) [] n cut_text enough)

printed_shape : (p ts ds : List ℕ) → p ++ (ts ++ 0 ∷ []) ++ ds ≡ p ++ ts ++ 0 ∷ ds
printed_shape p ts ds =
    (λ i. sym (append_assoc p ts (0 ∷ [])) i ++ ds) ∙ append_assoc (p ++ ts) (0 ∷ []) ds

-- The text is printed behind the prefix, as far as it fits.
short_prefix :
    (n : ℕ) (p text : List ℕ)
    → IsText p
    → IsText text
    → length p < n
    → string_at (debug_buffer (suc n) (some p) text) ≡ take n (p ++ text)
unfolding debug_buffer
short_prefix n p text a b short =
    let size : suc n - 1 ≡ n = omega arith in
    let test : ltb (length p) n ≡ true = ground arith in
    let buffer = write_at 0 (take (length p) p) (replicate (suc n) 0) in
    let ts = take (suc n - length p - 1) text in
    let ds = drop (length p + length (ts ++ 0 ∷ [])) buffer in
    let copied : take (length p) buffer ≡ p =
      (λ i.
        take (length p)
          (take_whole p i ++ drop (0 + length (take (length p) p)) (replicate (suc n) 0)))
      ∙ take-append p (drop (0 + length (take (length p) p)) (replicate (suc n) 0)) in
    let count : suc n - length p - 1 ≡ n - length p = omega arith in
    let few = length-take_le (suc n - length p - 1) text in
    rw (size, test)
      ((λ i. string_at (set (copied i ++ (ts ++ 0 ∷ []) ++ ds) n 0))
        ∙ (λ i. string_at (set (printed_shape p ts ds i) n 0))
        ∙ string_at-set (p ++ ts) ds n
            (IsText-append p ts a (All-take (λ (u : ℕ). u ≢ 0) (suc n - length p - 1) text b))
            (omega (arith, few, length-append p ts))
        ∙ (λ i. p ++ take (count i) text)
        ∙ sym (take-append_short n p text (omega arith)))

same_buffer :
    (n : ℕ) (prefix : Option (List ℕ)) (text : List ℕ)
    → string_at (debug_buffer (suc n) prefix text)
      ≡ string_at (debug_buffer (suc n) (some (prefix_of prefix)) text)
unfolding debug_buffer
same_buffer n none text = refl
same_buffer n (some p) text = refl

message_string :
    (n : ℕ) (prefix : Option (List ℕ)) (text : List ℕ)
    → IsText (prefix_of prefix)
    → IsText text
    → string_at (debug_buffer (suc n) prefix text) ≡ take n (prefix_of prefix ++ text)
message_string n prefix text a b =
    same_buffer n prefix text ∙ elim (dec_lt (length (prefix_of prefix)) n) [
      | yes short ↦ short_prefix n (prefix_of prefix) text a b short
      | no long ↦
          let l : n ≤ length (prefix_of prefix) = omega arith in
          long_prefix n (prefix_of prefix) text a l
          ∙ sym (take-append_long n (prefix_of prefix) text l)
    ]

level_table : all_below 8 (λ l. all_below 256 (λ v. l == 0 || not (bit_or l v == 0))) ≡ true
unfolding all_below
level_table = refl

passes : (level lv : ℕ) → level ≢ 0 → level < 8 → lv < 256 → (bit_or level lv == 0) ≡ false
passes level lv some_level small small_lv =
    let row = all_below-at 256 _ lv (all_below-at 8 _ level level_table small) small_lv in
    ground (arith, row)

-- `_debug` of any level of the library gives the message to every sink that was registered,
-- once each and whatever level was chosen at the start: files, then sockets, then functions,
-- then the console. Each is given the prefix with the text behind it, cut to 1023 bytes.
pub debug_lem :
    (level : ℕ) (text : List ℕ) (d : DebugPar)
    → level ≢ 0
    → level < 8
    → d.lv < 256
    → IsText (prefix_of d.prefix)
    → IsText text
    → debug level text (some d)
      ≡ map
          (λ (s : Sink). (s, take 1023 (prefix_of d.prefix ++ text)))
          (d.files ++ d.nets ++ d.redirections ++ (if d.buse then to_console ∷ [] else []))
unfolding debug
debug_lem level text d some_level small small_lv a b =
    let sinks = d.files ++ d.nets ++ d.redirections ++ (if d.buse then to_console ∷ [] else []) in
    let given = message_string 1023 d.prefix text a b in
    rw (passes level d.lv some_level small small_lv) (λ i. map (λ (s : Sink). (s, given i)) sinks)
