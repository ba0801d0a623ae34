-- ===== src/NetGroup/Buffering.antt =====
-- What the buffer of the server of messages holds, datagram by datagram.
use workqueue.NetGroup.Shifting.{receive-Keeps, used-fits, half-Keeps, deleted-Keeps, Keeps}
use workqueue.NetGroup.Server.{make_room, receive, Buffer, shift_data, buffer_turns}
use workqueue.Prelude.{
  sym, ◌==◌, drop, ◌∙◌, arith, Bool-cases, with_some, length-drop, ◌<◌, ◌/◌, length, ◌≢◌, ◌≤◌, ◌-◌,
  All, leb, ◌⊎◌, ◌+◌, take, if◌then◌else◌, ◌++◌, ◌≡◌, List, ℕ, refl, some, inl, inr, [], ◌∷◌,
}

-- The bytes that are left: without those that are processed, and without the first half of the
-- buffer where there would be no room.
unfoldable pub left_over : ℕ → ℕ → List ℕ → List ℕ
left_over buffersize decoder_res us =
    let rest = drop decoder_res us in
    if leb buffersize (length rest) then drop (buffersize / 2) rest else rest

-- The same turns on the bytes that are not processed, of which each datagram adds what there is
-- room for. One that adds nothing is the last.
unfoldable pub unread_after : ℕ → List (List ℕ × ℕ) → List ℕ → List ℕ
unfolding left_over
unread_after buffersize [] us = us
unread_after buffersize ((datagram, decoder_res) ∷ rest) us =
    let nread = take (buffersize - length us) datagram in
    let more = unread_after buffersize rest (left_over buffersize decoder_res (us ++ nread)) in
    if length nread == 0 then us else more

-- An answer of a decoder that processes nothing or at least half of a buffer of this size.
abbrev pub IsPlain : ℕ → List ℕ × ℕ → Type 0
IsPlain buffersize x = (x.1 ≡ 0) ⊎ (buffersize ≤ x.1 + x.1)

shifted-Keeps :
    (buffersize half decoder_res : ℕ) (b : Buffer) (us : List ℕ)
    → Keeps buffersize b us
    → buffersize ≡ half + half
    → (decoder_res ≡ 0) ⊎ (buffersize ≤ decoder_res + decoder_res)
    → (b' : Buffer) × (shift_data buffersize decoder_res b ≡ some b')
      × Keeps buffersize b' (left_over buffersize decoder_res us)
unfolding shift_data left_over
shifted-Keeps buffersize half decoder_res b us k even answer =
    let (b1, deleted, k1) = deleted-Keeps buffersize decoder_res b us k answer in
    let (b2, made, k2) =
      half-Keeps buffersize half b1 (drop decoder_res us) k1 even
        (used-fits buffersize b1 (drop decoder_res us) k1) in
    (b2, (λ i. with_some (deleted i) (make_room buffersize)) ∙ made, k2)

left_over-room :
    (buffersize half decoder_res : ℕ) (us : List ℕ)
    → buffersize ≡ half + half
    → half ≢ 0
    → length us ≤ buffersize
    → length (left_over buffersize decoder_res us) < buffersize
unfolding left_over
left_over-room buffersize half decoder_res us even some_half small =
    let rest = drop decoder_res us in
    let l = length-drop decoder_res us in
    let m = length-drop (buffersize / 2) rest in
    elim (Bool-cases (leb buffersize (length rest))) [
      | inl full ↦ rw full (omega (arith, l, m))
      | inr room ↦ rw room (ground (arith, room))
    ]

-- With a buffer of an even size that is not 0 and a decoder that processes, each time, nothing or
-- at least half a buffer, the turns of the server, up to the first datagram of which nothing is
-- received, neither leave the buffer nor copy between regions that overlap. What the buffer
-- holds behind them are the bytes that were received, of each datagram those there was room for,
-- less those that the decoder processed and, each time the buffer would have stayed full, less
-- its first half; and there is room for a byte more.
pub buffer_turns_lem :
    (buffersize half : ℕ) (xs : List (List ℕ × ℕ)) (b : Buffer) (us : List ℕ)
    → buffersize ≡ half + half
    → Keeps buffersize b us
    → All (IsPlain buffersize) xs
    → half ≢ 0
    → length us < buffersize
    → (b' : Buffer) × (buffer_turns buffersize xs b ≡ some b')
      × Keeps buffersize b' (unread_after buffersize xs us)
      × (length (unread_after buffersize xs us) < buffersize)
unfolding buffer_turns unread_after
buffer_turns_lem buffersize half [] b us even k a some_half room = (b, refl, k, room)
buffer_turns_lem buffersize half (x ∷ xs) b us even k (plain, a) some_half room =
    let datagram = x.0 in
    let us1 = us ++ take (buffersize - length us) datagram in
    let read_as : (length (take (buffersize - b.cursor) datagram) == 0)
        ≡ (length (take (buffersize - length us) datagram) == 0) =
      λ i. length (take (buffersize - sym k.used i) datagram) == 0 in
    let turn =
      with_some (shift_data buffersize x.1 (receive buffersize datagram b))
        (buffer_turns buffersize xs) in
    elim (Bool-cases (length (take (buffersize - length us) datagram) == 0)) [
      | inl ended ↦
          (b, (λ i. if (read_as ∙ ended) i then some b else turn), rw ended k, rw ended room)
      | inr more ↦
          let (b2, shifted, k2) =
            shifted-Keeps buffersize half x.1 (receive buffersize datagram b) us1
              (receive-Keeps buffersize datagram b us k) even plain in
          let new_room = left_over-room buffersize half x.1 us1 even some_half (
            used-fits buffersize (receive buffersize datagram b) us1
              (receive-Keeps buffersize datagram b us k)) in
          let (b3, rest, k3, room3) =
            buffer_turns_lem buffersize half xs b2 (left_over buffersize x.1 us1) even k2 a
              some_half new_room in
          (
            b3,
            (λ i. if (read_as ∙ more) i then some b else turn)
                ∙ (λ i. with_some (shifted i) (buffer_turns buffersize xs))
                ∙ rest,
            rw more k3,
            rw more room3,
          )
    ]
