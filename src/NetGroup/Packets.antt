-- ===== src/NetGroup/Packets.antt =====
-- Messages between hosts as bytes: struct default_par of NetGroup.c with what lies behind it. Its
-- three fields take four bytes each, low byte first.
use workqueue.WorkQueue.Send.{sent}
use workqueue.Platform.Codes.{dword}
use workqueue.WorkQueue.Mailbox.{Message}
use workqueue.Prelude.{
  take_whole, replicate, sym, take-append, ◌∙◌, length, drop, arith, ◌-◌, ◌*◌, ◌==◌, ◌+◌, ◌≡◌, ◌/◌,
  ◌%◌, take, get_or, ◌<◌, if◌then◌else◌, ◌++◌, ℕ, List, refl, [], ◌∷◌,
}
use workqueue.NetGroup.Routing.{
  number_of, Cast, Packet, unicast, broadcast, multicast, disconnect, closing,
}

abbrev pub header : ℕ
header = 12

unfoldable pub word_bytes : ℕ → List ℕ
word_bytes n = n % 256 ∷ n / 256 % 256 ∷ n / 65536 % 256 ∷ n / 16777216 % 256 ∷ []

abbrev pub word_in : List ℕ → ℕ → ℕ
word_in b i =
    get_or b i 0
    + 256 * get_or b (i + 1) 0
    + 65536 * get_or b (i + 2) 0
    + 16777216 * get_or b (i + 3) 0

-- What a number that is none of the enumerators does in `host_routing`, `closing` does.
abbrev pub cast_of : ℕ → Cast
cast_of n =
    if n == 0
    then unicast
    else if n == 1
    then broadcast
    else if n == 2
    then multicast
    else if n == 3
    then disconnect
    else closing

-- The array `dump` of the sending functions.
unfoldable pub dump_of : Packet → List ℕ
unfolding word_bytes
dump_of p = word_bytes p.host ++ word_bytes p.route_id ++ word_bytes (number_of p.cast) ++ p.bytes

-- What `host_routing` reads behind its two arguments.
unfoldable pub load_packet : Message → Packet
load_packet m = record {
  host = word_in m.bytes 0;
  route_id = word_in m.bytes 4;
  cast = cast_of (word_in m.bytes 8);
  bytes = take ((m.size + dword - header) % dword) (drop header m.bytes);
}

word_of_bytes :
    (n : ℕ)
    → n < dword
    → n % 256 + 256 * (n / 256 % 256) + 65536 * (n / 65536 % 256) + 16777216 * (n / 16777216 % 256)
      ≡ n
word_of_bytes n small = omega arith

cast_of-number_of :
    (c : Cast)
    → cast_of (
        number_of c % 256
        + 256 * (number_of c / 256 % 256)
        + 65536 * (number_of c / 65536 % 256)
        + 16777216 * (number_of c / 16777216 % 256))
      ≡ c
cast_of-number_of unicast = refl
cast_of-number_of broadcast = refl
cast_of-number_of multicast = refl
cast_of-number_of disconnect = refl
cast_of-number_of closing = refl

pub length-dump_of : (p : Packet) → length (dump_of p) ≡ header + length p.bytes
unfolding dump_of word_bytes
length-dump_of p = omega arith

-- A packet in a slot of any size that holds it.
load_padded :
    (p : Packet) (pad : List ℕ)
    → p.host < dword
    → p.route_id < dword
    → header + length p.bytes < dword
    → load_packet (record { bytes = dump_of p ++ pad; size = header + length p.bytes }) ≡ p
unfolding load_packet dump_of word_bytes
load_padded p pad h r l =
    let n : (header + length p.bytes + dword - header) % dword ≡ length p.bytes = omega arith in
    let b : take ((header + length p.bytes + dword - header) % dword) (p.bytes ++ pad) ≡ p.bytes =
      (λ i. take (n i) (p.bytes ++ pad)) ∙ take-append p.bytes pad in
    λ i. record {
      host = word_of_bytes p.host h i;
      route_id = word_of_bytes p.route_id r i;
      cast = cast_of-number_of p.cast i;
      bytes = b i;
    }

-- What a sender writes with `WQ_send` is what the receiver reads: the host, the route and the
-- kind of the packet, and its bytes, in a slot of any size that they fit.
pub load_packet-dump_of :
    (size : ℕ) (p : Packet)
    → p.host < dword
    → p.route_id < dword
    → header + length p.bytes < dword
    → load_packet (sent size (dump_of p) (header + length p.bytes)) ≡ p
load_packet-dump_of size p h r l =
    let n = header + length p.bytes in
    let whole : take n (dump_of p) ≡ dump_of p =
      (λ i. take (sym (length-dump_of p) i) (dump_of p)) ∙ take_whole (dump_of p) in
    (λ i. load_packet (record { bytes = whole i ++ replicate (size - n) 0; size = n }))
    ∙ load_padded p (replicate (size - n) 0) h r l
