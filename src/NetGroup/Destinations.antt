-- ===== src/NetGroup/Destinations.antt =====
-- `NetGroup_router_send_message` of NetGroup.c: a datagram to an address, over a socket that
-- is kept for it. `to`, `new_to` and `_message_tos` are the list of what was sent to before.
use workqueue.Platform.Codes.{dword}
use workqueue.Prelude.{
  replicate, length, ◌||◌, ltb, ◌%◌, not, ◌+◌, if◌then◌else◌, ◌&&◌, ◌-◌, ◌==◌, Option, List, Bool,
  ℕ, none, some, [], ◌∷◌,
}
use workqueue.Platform.Run.{and_then, Run, Cmd, done, waiting, fault}

-- struct _router_message_unicast_to: an address, a port, and a socket.
pub record To : Type 0 where
  pub ip : ℕ
  pub port : ℕ
  pub sock : ℕ

abbrev pub at_address : ℕ → ℕ → To → Bool
at_address ip port to = to.ip == ip && to.port == port

-- `while(to)`: what is kept for an address.
unfoldable pub find_to : ℕ → ℕ → List To → Option To
find_to ip port [] = none
find_to ip port (to ∷ tos) =
    let rest = find_to ip port tos in if at_address ip port to then some to else rest

-- `while(to && to->next_to)`: the new one is linked behind the last.
unfoldable pub link_to : To → List To → List To
link_to new_to [] = new_to ∷ []
link_to new_to (to ∷ tos) = to ∷ link_to new_to tos

-- What the system gives to a call: the block for a new entry, a socket, a lock.
pub record Resources : Type 0 where
  pub block : Bool
  pub socket : Option ℕ
  pub lock : Bool

-- The entry for an address, new if there was none. `none` in place of the entry is the return
-- of -1; a block that is not given is written to.
unfoldable pub obtain_to : Resources → ℕ → ℕ → Cmd (List To) (Option To)
obtain_to given ip port tos = elim (find_to ip port tos) [
  | some to ↦ done (some to) tos
  | none ↦ if not given.block then fault else elim given.socket [
    | none ↦ done none tos
    | some sock ↦
        let new_to : To = record { ip = ip; port = port; sock = sock } in
        if given.lock then done (some new_to) (link_to new_to tos) else done none tos
  ]
]

-- The loop that sends, with what `sendto` returns to its calls, one after the other: a number
-- of bytes, or -1, which is stored in an `unsigned`. `sendto` reads its bytes from the buffer
-- of the message.
unfoldable pub send_loop : List ℕ → ℕ → ℕ → ℕ → Option (Run (Unit {0}) ℕ)
send_loop [] size sendlen sendedlen = if sendlen == 0 then some (done sendedlen tt) else none
send_loop (sendlen_t ∷ answers) size sendlen sendedlen =
    let rest =
      send_loop answers size ((sendlen + dword - sendlen_t) % dword)
        ((sendedlen + sendlen_t) % dword) in
    if sendlen == 0
    then some (done sendedlen tt)
    else if ltb size (sendedlen + (sendlen + dword - sendedlen) % dword)
    then some fault
    else if sendlen_t == 0
    then some (done sendedlen tt)
    else rest

-- -1 in an `unsigned`
abbrev pub all_ones : ℕ
all_ones = dword - 1

-- What `NetGroup_router_send_message` makes of the loop: 1 if all was sent, and 0 if not.
abbrev pub sent_result : ℕ → Option (Run (Unit {0}) ℕ) → Cmd (List To) ℕ
sent_result sendlen none tos = waiting tos
sent_result sendlen (some (done sendedlen u)) tos = done (if sendlen == sendedlen then 1 else 0) tos
sent_result sendlen (some (waiting u)) tos = waiting tos
sent_result sendlen (some fault) tos = fault

-- The whole function, for a router and an encoder that are not NULL. `ip` is what `inet_addr`
-- gives for the caller's text, or NULL, and a port that is not positive is 0. The encoder
-- gives the length of the message and the size of the buffer that it put it in.
unfoldable pub router_send_message :
    Resources → List ℕ → Option ℕ → ℕ → List ℕ → (List ℕ → ℕ × ℕ) → Cmd (List To) ℕ
router_send_message given answers none port par encoder tos = done all_ones tos
router_send_message given answers (some ip) port par encoder tos =
    if port == 0 || length par == 0
    then done all_ones tos
    else and_then (obtain_to given ip (port % 65536) tos) (λ to kept. elim to [
      | none ↦ done all_ones kept
      | some to ↦
          let (sendlen, size) = encoder par in
          sent_result sendlen (send_loop answers size sendlen 0) kept
    ])

-- struct _router_message_buffer: the block that `_p` points to, or NULL.
pub record MessageBuffer : Type 0 where
  pub p : Option (List ℕ)
  pub n : ℕ

-- The block for a longer message, which takes the place of the old one whether it is given or not.
abbrev pub longer : Bool → ℕ → MessageBuffer → MessageBuffer
longer granted want b =
    if ltb b.n want
    then record { p = if granted then some (replicate want 0) else none; n = want }
    else b

abbrev pub zeroed : MessageBuffer → MessageBuffer
zeroed b = record b { p = elim b.p [ none ↦ none | some bytes ↦ some (replicate b.n 0) ] }

-- `NetGroup_router_send_message_buffer_realloc`, for a buffer that is not NULL.
unfoldable pub buffer_realloc : Bool → ℕ → Bool → MessageBuffer → MessageBuffer
buffer_realloc granted want clear b =
    let grown = if want == 0 then b else longer granted want b in
    if clear then zeroed grown else grown
