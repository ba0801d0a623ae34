-- ===== src/NetGroup/Server.antt =====
-- The server of messages in NetGroup.c: a turn of the loop of `message_server_start_routine`
-- behind `select`, for a datagram that the socket has. `recvfrom` gives as much of it as there
-- is room for.
use workqueue.NetGroup.Packets.{header}
use workqueue.Platform.Codes.{dword}
use workqueue.NetGroup.Hosts.{Host}
use workqueue.NetGroup.Casts.{behind_host, after_post, name_of, post}
use workqueue.Platform.Clock.{Timespec}
use workqueue.Platform.Posix.{Posix}
use workqueue.Prelude.{
  drop, ◌%◌, ◌&&◌, ◌+◌, ◌==◌, ◌/◌, length, leb, ◌++◌, ltb, ◌-◌, if◌then◌else◌, with_some, Option,
  take, Bool, List, ℕ, none, some, true, false, [], ◌∷◌,
}
use workqueue.NetGroup.Routing.{Packet, unicast}
use workqueue.Platform.Run.{and_then, Cmd, done, fault}

-- `memcpy(p, p + from, n)`: `none` where the two regions overlap.
unfoldable pub copy_down : List ℕ → ℕ → ℕ → Option (List ℕ)
copy_down p from n = if ltb from n then none else some (take n (drop from p) ++ drop n p)

-- The buffer, and how much of it is used.
pub record Buffer : Type 0 where
  pub pbuffer : List ℕ
  pub cursor : ℕ

-- `recvfrom` behind the cursor, of at most the room that is left.
unfoldable pub receive : ℕ → List ℕ → Buffer → Buffer
receive buffersize datagram b =
    let nread = take (buffersize - b.cursor) datagram in
    record {
      pbuffer = take b.cursor b.pbuffer ++ nread ++ drop (b.cursor + length nread) b.pbuffer;
      cursor = b.cursor + length nread;
    }

-- What the decoder has processed is deleted.
unfoldable pub delete_processed : ℕ → Buffer → Option Buffer
delete_processed decoder_res b =
    let res = if leb b.cursor decoder_res then b.cursor else decoder_res in
    if decoder_res == 0
    then some b
    else if b.cursor - res == 0
    then some (record b { cursor = b.cursor - res })
    else with_some (copy_down b.pbuffer res (b.cursor - res))
        (λ p. some (record { pbuffer = p; cursor = b.cursor - res }))

-- A full buffer keeps its second half.
unfoldable pub make_room : ℕ → Buffer → Option Buffer
make_room buffersize b =
    if leb buffersize b.cursor
    then with_some (copy_down b.pbuffer (buffersize / 2) (buffersize / 2))
        (λ p. some (record { pbuffer = p; cursor = buffersize / 2 }))
    else some b

-- Both, as they follow on the decoder.
unfoldable pub shift_data : ℕ → ℕ → Buffer → Option Buffer
shift_data buffersize decoder_res b =
    with_some (delete_processed decoder_res b) (make_room buffersize)

-- The turns for some datagrams, as far as they concern the buffer, with what the decoder
-- answers to each. One of which nothing is received ends the server.
unfoldable pub buffer_turns : ℕ → List (List ℕ × ℕ) → Buffer → Option Buffer
unfolding receive shift_data
buffer_turns buffersize [] b = some b
buffer_turns buffersize ((datagram, decoder_res) ∷ rest) b =
    let nread = length (take (buffersize - b.cursor) datagram) in
    if nread == 0
    then some b
    else with_some (shift_data buffersize decoder_res (receive buffersize datagram b))
        (buffer_turns buffersize rest)

-- What the decoder gives: how much it has processed, the length of its message, the message, and
-- which hosts are marked in the table behind the call, by their place.
pub record Decoded : Type 0 where
  pub decoder_res : ℕ
  pub outlen : ℕ
  pub parameter_copy : List ℕ
  pub bcasts : List Bool

module _ (os : Posix) (now : Timespec) where
  -- The loop over the hosts that the message is for; one whose slots it does not fit is left
  -- out. The sender is NULL. A host without an entry in the table is not sent to.
  unfoldable pub notify : ℕ → ℕ → List ℕ → List Bool → Cmd (List (Host os)) (Unit {0})
  unfolding post
  notify stale outlen copy bcasts [] = done tt []
  notify stale outlen copy [] (h ∷ hosts) = fault
  notify stale outlen copy (bcast ∷ bcasts) (h ∷ hosts) =
      let rest = notify stale outlen copy bcasts hosts in
      let p : Packet = record {
        host = name_of {os = os} none;
        route_id = stale;
        cast = unicast;
        bytes = take outlen copy;
      } in
      if bcast && leb outlen ((h.queue.element_1_size + dword - header) % dword)
      then after_post h hosts (post os now p 0 h) rest
      else behind_host h rest

  -- A turn, with a decoder that is given the start of the buffer and the length of what was
  -- received last. FALSE where the loop ends.
  unfoldable pub server_turn :
      (ℕ → List ℕ → ℕ → Decoded) → ℕ → ℕ → List ℕ → Buffer → Cmd (List (Host os)) (Bool × Buffer)
  unfolding receive shift_data notify
  server_turn decoder buffersize stale datagram b hosts =
      let nread = length (take (buffersize - b.cursor) datagram) in
      let filled = receive buffersize datagram b in
      let d = decoder (length hosts) filled.pbuffer nread in
      if nread == 0
      then done (false, b) hosts
      else and_then
          (if d.outlen == 0
            then done tt hosts
            else notify stale d.outlen d.parameter_copy d.bcasts hosts)
          (λ u ks. elim (shift_data buffersize d.decoder_res filled) [
            | none ↦ fault
            | some left ↦ done (true, left) ks
          ])
