-- ===== src/NetGroup/Shifting.antt =====
-- What the copies of the server of messages leave of the bytes in its buffer.
use workqueue.NetGroup.Server.{delete_processed, make_room, Buffer, receive, copy_down}
use workqueue.Prelude.{
  take-drop, take-prefix, length-drop, drop_all, length-take_le, drop-prefix, ◌==◌, ◌<◌, dec_lt,
  ◌⊎◌, true, length-take, Bool-cases, inl, inr, drop, length-append, append_assoc, ◌/◌, subst,
  take-append, ltb, leb, ◌+◌, ◌∙◌, ap, if◌then◌else◌, arith, sym, ◌≤◌, ◌-◌, take, ◌≡◌, length, ◌++◌,
  List, ℕ, zero, suc, refl, some, false,
}

-- The buffer of this size starts with these bytes, which reach up to the cursor.
pub record Keeps (buffersize : ℕ) (b : Buffer) (us : List ℕ) : Type 0 where
  pub free : List ℕ
  pub split : b.pbuffer ≡ us ++ free
  pub used : length us ≡ b.cursor
  pub sized : length b.pbuffer ≡ buffersize

pub used-fits :
    (buffersize : ℕ) (b : Buffer) (us : List ℕ) → Keeps buffersize b us → length us ≤ buffersize
used-fits buffersize b us k =
    let total : length b.pbuffer ≡ length (us ++ k.free) = ap length k.split in
    omega (arith, total, k.sized, length-append us k.free)

pub receive-Keeps :
    (buffersize : ℕ) (datagram : List ℕ) (b : Buffer) (us : List ℕ)
    → Keeps buffersize b us
    → Keeps buffersize
        (receive buffersize datagram b)
        (us ++ take (buffersize - length us) datagram)
unfolding receive
receive-Keeps buffersize datagram b us k =
    let ns = take (buffersize - b.cursor) datagram in
    let rest = drop (b.cursor + length ns) b.pbuffer in
    let few = length-take_le (buffersize - b.cursor) datagram in
    let all_of : us ++ take (buffersize - length us) datagram ≡ us ++ ns =
      λ i. us ++ take (buffersize - k.used i) datagram in
    let start : take b.cursor b.pbuffer ≡ us =
      (λ i. take b.cursor (k.split i)) ∙ take-prefix b.cursor us k.free k.used in
    subst (Keeps buffersize (receive buffersize datagram b)) (sym all_of) (record {
      free = rest;
      split = λ i. start i ++ ns ++ rest;
      used = omega (arith, k.used, length-append us ns);
      sized =
          (λ i. length (start i ++ ns ++ rest))
          ∙ omega (
            arith,
            few,
            k.used,
            k.sized,
            length-append (us ++ ns) rest,
            length-append us ns,
            length-drop (b.cursor + length ns) b.pbuffer,
            used-fits buffersize b us k,
          );
    })

-- `memcpy` to the start of the buffer, from behind the first part of what is kept there.
copy_down-Keeps :
    (buffersize : ℕ) (b : Buffer) (from : ℕ) (ds rs : List ℕ)
    → Keeps buffersize b (ds ++ rs)
    → length ds ≡ from
    → length rs ≤ from
    → (p : List ℕ) × (copy_down b.pbuffer from (length rs) ≡ some p)
      × Keeps buffersize (record { pbuffer = p; cursor = length rs }) rs
unfolding copy_down
copy_down-Keeps buffersize b from ds rs k e small =
    let apart : ltb from (length rs) ≡ false = ground arith in
    let whole : b.pbuffer ≡ ds ++ (rs ++ k.free) = k.split ∙ append_assoc ds rs k.free in
    let moved : take (length rs) (drop from b.pbuffer) ≡ rs =
      (λ i. take (length rs) (drop from (whole i)))
      ∙ (λ i. take (length rs) (drop-prefix from ds (rs ++ k.free) e i))
      ∙ take-append rs k.free in
    let rest = drop (length rs) b.pbuffer in
    (
      rs ++ rest,
      rw (apart, moved) refl,
      record {
        free = rest;
        split = refl;
        used = refl;
        sized = omega (
          arith,
          length-append rs rest,
          length-drop (length rs) b.pbuffer,
          k.sized,
          used-fits buffersize b (ds ++ rs) k,
          length-append ds rs,
        );
      },
    )

pub half-Keeps :
    (buffersize half : ℕ) (b : Buffer) (us : List ℕ)
    → Keeps buffersize b us
    → buffersize ≡ half + half
    → length us ≤ buffersize
    → (b' : Buffer) × (make_room buffersize b ≡ some b')
      × Keeps buffersize b' (if leb buffersize (length us) then drop (buffersize / 2) us else us)
unfolding make_room
half-Keeps buffersize half b us k even small = elim (Bool-cases (leb buffersize b.cursor)) [
  | inl full ↦
      let h : buffersize / 2 ≡ half = omega arith in
      let n : length us ≡ half + half = ground (arith, k.used) in
      let gs = drop half us in
      let here : length gs ≡ half = length-drop half us ∙ omega arith in
      let there : length (take half us) ≡ half = length-take half us (omega arith) in
      let c =
        copy_down-Keeps buffersize b half (take half us) gs
          (subst (Keeps buffersize b) (sym (take-drop half us)) k) there (omega (arith, here)) in
      let copied : copy_down b.pbuffer (buffersize / 2) (buffersize / 2) ≡ some c.0 =
        (λ i. copy_down b.pbuffer (h i) (h i))
        ∙ (λ i. copy_down b.pbuffer half (sym here i))
        ∙ c.1 in
      let test : leb buffersize (length us) ≡ true = (λ i. leb buffersize (k.used i)) ∙ full in
      (
        record { pbuffer = c.0; cursor = buffersize / 2 },
        rw (full, copied) refl,
        subst (Keeps buffersize (record { pbuffer = c.0; cursor = buffersize / 2 }))
            (λ i. if sym test i then drop (sym h i) us else us)
            (subst (λ m. Keeps buffersize (record { pbuffer = c.0; cursor = m }) gs) (here ∙ sym h)
              c.2),
      )
  | inr room ↦
      let n : leb buffersize (length us) ≡ false = (λ i. leb buffersize (k.used i)) ∙ room in
      (b, rw room refl, rw n k)
]

delete_processed-copy :
    (n : ℕ) (b : Buffer) (p : List ℕ)
    → suc n < b.cursor
    → copy_down b.pbuffer (suc n) (b.cursor - suc n) ≡ some p
    → delete_processed (suc n) b ≡ some (record { pbuffer = p; cursor = b.cursor - suc n })
unfolding delete_processed
delete_processed-copy n b p more e =
    let inside : leb b.cursor (suc n) ≡ false = ground arith in
    let some_left : (b.cursor - suc n == 0) ≡ false = ground arith in
    let positive : (suc n == 0) ≡ false = ground arith in rw (positive, inside, some_left, e) refl

deleted-some :
    (buffersize n : ℕ) (b : Buffer) (us : List ℕ)
    → Keeps buffersize b us
    → suc n < length us
    → length us ≤ suc n + suc n
    → (b' : Buffer) × (delete_processed (suc n) b ≡ some b') × Keeps buffersize b' (drop (suc n) us)
deleted-some buffersize n b us k more small =
    let rs = drop (suc n) us in
    let behind : length rs ≡ length us - suc n = length-drop (suc n) us in
    let there = length-take (suc n) us (omega arith) in
    let c =
      copy_down-Keeps buffersize b (suc n) (take (suc n) us) rs
        (subst (Keeps buffersize b) (sym (take-drop (suc n) us)) k) there (omega (arith, behind)) in
    let left : b.cursor - suc n ≡ length rs = (λ i. sym k.used i - suc n) ∙ sym behind in
    (
      record { pbuffer = c.0; cursor = b.cursor - suc n },
      delete_processed-copy n b c.0 (omega (arith, k.used))
          ((λ i. copy_down b.pbuffer (suc n) (left i)) ∙ c.1),
      subst (λ m. Keeps buffersize (record { pbuffer = c.0; cursor = m }) rs) (sym left) c.2,
    )

deleted-all :
    (buffersize n : ℕ) (b : Buffer) (us : List ℕ)
    → Keeps buffersize b us
    → length us ≤ suc n
    → (b' : Buffer) × (delete_processed (suc n) b ≡ some b') × Keeps buffersize b' (drop (suc n) us)
unfolding delete_processed
deleted-all buffersize n b us k small =
    let all : leb b.cursor (suc n) ≡ true = ground (arith, k.used) in
    let none_left : (b.cursor - b.cursor == 0) ≡ true = ground arith in
    let positive : (suc n == 0) ≡ false = ground arith in
    let zero_left : 0 ≡ b.cursor - b.cursor = omega arith in
    (
      record { pbuffer = b.pbuffer; cursor = b.cursor - b.cursor },
      rw (positive, all, none_left) refl,
      subst (Keeps buffersize (record { pbuffer = b.pbuffer; cursor = b.cursor - b.cursor }))
          (sym (drop_all (suc n) us small))
          (record { free = b.pbuffer; split = refl; used = zero_left; sized = k.sized }),
    )

-- What is left of the bytes behind `drop`, as `delete_processed` limits it.
pub deleted-Keeps :
    (buffersize decoder_res : ℕ) (b : Buffer) (us : List ℕ)
    → Keeps buffersize b us
    → (decoder_res ≡ 0) ⊎ (buffersize ≤ decoder_res + decoder_res)
    → (b' : Buffer) × (delete_processed decoder_res b ≡ some b')
      × Keeps buffersize b' (drop decoder_res us)
unfolding delete_processed
deleted-Keeps buffersize zero b us k answer = (b, refl, k)
deleted-Keeps buffersize (suc n) b us k answer =
    let fits = used-fits buffersize b us k in
    elim (dec_lt (suc n) (length us)) [
      | yes more ↦ deleted-some buffersize n b us k more (ground (arith, fits))
      | no all_done ↦ deleted-all buffersize n b us k (omega arith)
    ]
