-- ===== src/Torrent/Receive/Greeted.antt =====
-- A handshake with a bitfield behind it, as main in src/torrent.c receives it.
use soft_sys_dubstep_ducks.Prelude.{
  ℕ, zero, suc, Outcome, ◌>>=◌, ◌+◌, ◌/◌, ◌%◌, ◌<◌, ◌≤◌, length-drop, append_assoc, some, ◌≡◌, ◌≢◌,
  refl, List, [], ◌∷◌, ◌++◌, Bool, true, ◌&&◌, ok, exits, arith, length, drop, replicate, bit,
  if◌then◌else◌, ◌==◌, ==_ne, ==_refl, false, bytes_eq, length-append, bit_and-zero, ◌∙◌,
}
use soft_sys_dubstep_ducks.Wire.{bitfield_id, interested}
use soft_sys_dubstep_ducks.Wire.Layout.{framed}
use soft_sys_dubstep_ducks.Handshake.{checked_handshake, construct_handshake}
use soft_sys_dubstep_ducks.Handshake.Verify.{checked_handshake-construct_handshake}
use soft_sys_dubstep_ducks.Bitfield.{peer_contains_undownloaded_pieces, undownloaded_from}
use soft_sys_dubstep_ducks.Connection.{Connection, Sent, own_interested, set_peer_bitfield}
use soft_sys_dubstep_ducks.Connection.Sends.{send_interested_lem, set_peer_bitfield_lem}
use soft_sys_dubstep_ducks.Torrent.{bitfield_len, bitfield_msg_length, file_sha}
use soft_sys_dubstep_ducks.Torrent.Receive.{Peer, bytes, greet, on_bytes, on_received}
use soft_sys_dubstep_ducks.Torrent.Receive.Greeting.{length-construct_handshake, bitfield_len-lt}

-- The first byte of the header is not 0.
header_missing :
    (total : ℕ) (bits os : List ℕ) (n : ℕ)
    → length bits ≡ n
    → (n + 1) % 256 ≢ 0
    → total / 8 < n
    → peer_contains_undownloaded_pieces (framed bitfield_id bits) (0 ∷ os) n ≡ ok true
unfolding peer_contains_undownloaded_pieces undownloaded_from
header_missing total bits os zero e odd h = absurd (omega arith)
header_missing total bits os (suc n) e odd h = rw (
  bit_and-zero (suc (length bits) % 256),
  ==_ne 0 (suc (length bits) % 256) (λ z. odd (omega arith)),
)

-- Behind the handshake: the peer is sent INTERESTED, because the header of its message is compared.
greet_by_header :
    (fresh : ℕ → ℕ) (sends : Bool) (total : ℕ) (handshake bits rest os : List ℕ) (c : Connection)
    (j : ℕ)
    → length handshake ≡ 68
    → length bits ≡ bitfield_len total
    → (bitfield_len total + 1) % 256 ≢ 0
    → j < 8
    → (flags : ℕ) × (greet fresh sends total
          (0 ∷ os)
          (handshake ++ (framed bitfield_id bits ++ rest))
          c
        ≡ (if sends
            then ok (
              framed interested [],
              record c { status_flags = flags; peer_bitfield = framed bitfield_id bits },
            )
            else exits 1))
      × (bit j flags ≡ (if own_interested == j then 1 else bit j c.status_flags))
unfolding greet bitfield_msg_length
greet_by_header fresh sends total handshake bits rest os c j h k odd j< =
    let told =
      send_interested_lem fresh sends (record c { peer_bitfield = framed bitfield_id bits }) j j< in
    let kept : set_peer_bitfield (handshake ++ (framed bitfield_id bits ++ rest))
          (4 + 1 + bitfield_len total)
        ≡ ok (framed bitfield_id bits) =
      rw (← k) (set_peer_bitfield_lem handshake bits rest h) in
    (
      told.0,
      rw (
        kept,
        header_missing total bits os (bitfield_len total) k odd (bitfield_len-lt total),
        told.1,
      ),
      told.2,
    )

drop-whole : (n : ℕ) (xs ys : List ℕ) → n ≤ length xs → drop n (xs ++ ys) ≡ drop n xs ++ ys
drop-whole zero xs ys h = refl
drop-whole (suc n) [] ys h = absurd (omega arith)
drop-whole (suc n) (x ∷ xs) ys h = drop-whole n xs ys (omega arith)

-- What is behind the received bytes, the buffer when it has been cleared, and the peer that is answered.
abbrev behind : ℕ → Peer → List ℕ
behind total peer = drop (68 + bitfield_msg_length total) peer.buffer

abbrev pub wiped : ℕ → Peer → List ℕ → List ℕ → List ℕ
wiped total peer hs msg = replicate (length (hs ++ (msg ++ behind total peer))) 0

abbrev answered : ℕ → Peer → List ℕ → List ℕ → Sent → Outcome Peer
answered total peer hs msg r =
    ok (record peer { connection = r.1; buffer = wiped total peer hs msg; sent = some r.0 })

-- The branch of main for a handshake and a bitfield.
on_bytes-greet :
    (fresh : ℕ → ℕ) (sends : Bool) (total : ℕ) (own own_handshake hs msg : List ℕ) (peer : Peer)
    → length hs ≡ 68
    → length msg ≡ bitfield_msg_length total
    → on_bytes fresh sends total own own_handshake peer (hs ++ msg) ≡ (
        checked_handshake fresh (hs ++ (msg ++ behind total peer)) file_sha >>= λ checked.
        greet fresh sends total own checked peer.connection >>= answered total peer hs msg)
unfolding on_bytes
on_bytes-greet fresh sends total own own_handshake hs msg peer size fits =
    let n : length (hs ++ msg) ≡ 68 + bitfield_msg_length total =
      omega (arith, length-append hs msg) in
    let some_bytes : (68 + bitfield_msg_length total == 0) ≡ false = ground arith in
    let longer : (68 + bitfield_msg_length total == 68) ≡ false =
      ground (arith, header_counted total) in
    rw
      (
        n,
        some_bytes,
        longer,
        ==_refl (68 + bitfield_msg_length total),
        append_assoc hs msg (behind total peer),
      )
      refl
  where
    header_counted : (total : ℕ) → 5 ≤ bitfield_msg_length total
    header_counted total = unfold bitfield_msg_length in (omega arith)

length-bitfield :
    (bits : List ℕ) (total : ℕ)
    → length bits ≡ bitfield_len total
    → length (framed bitfield_id bits) ≡ bitfield_msg_length total
unfolding bitfield_msg_length
length-bitfield bits total k = omega (arith, k)

-- By what the check and the answer come to.
greets_by :
    (passes sends : Bool) (total : ℕ) (peer : Peer) (hs msg told : List ℕ) (c : Connection)
    (cleared : List ℕ) (answer : List ℕ → Outcome Sent)
    → answer cleared ≡ (if sends then ok (told, c) else exits 1)
    → ((if passes then ok cleared else exits 1) >>= λ checked.
        answer checked >>= answered total peer hs msg)
      ≡ (if passes && sends then answered total peer hs msg (told, c) else exits 1)
greets_by false sends total peer hs msg told c cleared answer e = refl
greets_by true false total peer hs msg told c cleared answer e = rw e refl
greets_by true true total peer hs msg told c cleared answer e = rw e refl

-- A client that receives the handshake of another one and its bitfield in one exits with 1 if the hash is not the
-- expected one, or the byte behind the copied name is not 0. Otherwise it sends INTERESTED, whatever pieces the
-- peer has, if the first 8 pieces are missing here and the length of the message does not end with a 0 byte, and
-- keeps the whole message as the peer's bitfield: what it compares with its own bitfield is the header. It exits
-- with 1 if the send fails.
pub on_received_greets :
    (fresh : ℕ → ℕ) (sends : Bool) (total : ℕ) (hash id bits os own_handshake : List ℕ)
    (peer : Peer) (j : ℕ)
    → length hash ≡ 20
    → length id ≡ 20
    → length bits ≡ bitfield_len total
    → (bitfield_len total + 1) % 256 ≢ 0
    → j < 8
    → (handshake : List ℕ) × (flags : ℕ) × (construct_handshake fresh hash id ≡ ok handshake)
      × (on_received fresh sends total
            (0 ∷ os)
            own_handshake
            peer
            (bytes (handshake ++ framed bitfield_id bits))
          ≡ (if (bytes_eq hash file_sha && (fresh 19 == 0)) && sends
              then ok (record peer {
                connection = record peer.connection {
                  status_flags = flags;
                  peer_bitfield = framed bitfield_id bits;
                };
                buffer = wiped total peer handshake (framed bitfield_id bits);
                sent = some (framed interested []);
              })
              else exits 1))
      × (bit j flags ≡ (if own_interested == j then 1 else bit j peer.connection.status_flags))
unfolding on_received
on_received_greets fresh sends total hash id bits os own_handshake peer j h h' k odd j< =
    let msg = framed bitfield_id bits in
    let tail = behind total peer in
    let checked =
      checked_handshake-construct_handshake fresh fresh hash id file_sha (msg ++ tail) h h' refl in
    let hs = checked.0 in
    let size : length hs ≡ 68 = length-construct_handshake fresh hash id hs h h' checked.1 in
    let cleared = replicate 8 0 ++ drop 8 hs in
    let told =
      greet_by_header fresh sends total cleared bits tail os peer.connection j
        (omega (arith, length-drop 8 hs, size)) k odd j< in
    (
      hs,
      told.0,
      checked.1,
      on_bytes-greet fresh sends total (0 ∷ os) own_handshake hs msg peer size
            (length-bitfield bits total k)
          ∙ (rw (checked.2, drop-whole 8 hs (msg ++ tail) (omega (arith, size)))
              (greets_by (bytes_eq hash file_sha && (fresh 19 == 0)) sends total peer hs msg
                (framed interested [])
                (record peer.connection { status_flags = told.0; peer_bitfield = msg })
                (replicate 8 0 ++ (drop 8 hs ++ (msg ++ tail)))
                (λ buffer. greet fresh sends total (0 ∷ os) buffer peer.connection) told.1)),
      told.2,
    )
