-- ===== src/Torrent/Receive/Choke.antt =====
-- What main in src/torrent.c receives from a peer without unchoking it.
use soft_sys_dubstep_ducks.Prelude.{
  ℕ, ◌+◌, ◌≡◌, refl, List, [], ◌∷◌, ◌++◌, Bool, false, ◌||◌, not, exit_if, arith, ◌==◌, require,
  some, get_elem?, get_elem?-append, length, drop, read_at, write_at, Always, Always-any,
  Always-bind, Always-if, Always-returned, Always-undefined,
}
use soft_sys_dubstep_ducks.Wire.{
  choke, unchoke, interested, uninterested, have, bitfield_id, request, piece_id, cancel,
  get_next_msg,
}
use soft_sys_dubstep_ducks.Wire.RoundTrip.{int_at}
use soft_sys_dubstep_ducks.Handshake.{full_handshake_length, checked_handshake}
use soft_sys_dubstep_ducks.Bitfield.{peer_contains_undownloaded_pieces}
use soft_sys_dubstep_ducks.Connection.{Connection, own_choke, peer_interested, set_peer_bitfield}
use soft_sys_dubstep_ducks.Connection.Choke.{
  IsChoked, Withholds, send_interested-Withholds, send_uninterested-Withholds, set_flag-IsChoked,
}
use soft_sys_dubstep_ducks.Torrent.{bitfield_msg_length, bitfield_len, file_sha}
use soft_sys_dubstep_ducks.Torrent.Messages.{mark_piece, respond, handle_message}
use soft_sys_dubstep_ducks.Torrent.Receive.{
  Received, failed, bytes, Peer, intro_message, greet, on_bytes, on_received,
}

-- The ids of the messages on which main clears flags.
abbrev pub is_clearing : ℕ → Bool
is_clearing id = id == unchoke || id == uninterested

-- recv fails, or delivers bytes of which the fifth is not such an id.
abbrev pub IsCalm : Received → Type 0
IsCalm failed = Unit
IsCalm (bytes received) = (id : ℕ) × (get_elem? received 4 ≡ some id) × (is_clearing id ≡ false)

-- The connection that is left.
abbrev Choked : Connection × Bool → Type 0
Choked r = IsChoked r.0

respond-Choked :
    (total : ℕ) (msg : List ℕ) (id : ℕ) (test_freed : Bool) (c : Connection)
    → is_clearing id ≡ false
    → IsChoked c
    → Always Choked (respond total msg id test_freed c)
unfolding respond
respond-Choked total msg id test_freed c calm choked =
    let not_unchoke : (id == unchoke) ≡ false = ground arith in
    let not_uninterested : (id == uninterested) ≡ false = ground arith in
    rw (not_unchoke, not_uninterested)
      (Always-if Choked (id == choke) _ _
        (Always-returned Choked _ (set_flag-IsChoked c own_choke (omega arith) refl choked))
        (Always-if Choked (id == interested) _ _
          (Always-returned Choked _ (set_flag-IsChoked c peer_interested (omega arith) refl choked))
          (Always-if Choked (id == have) _ _
            (Always-any Choked (require (not test_freed)) _ (λ u.
              Always-any Choked (int_at msg 5) _ (λ piece.
                Always-any Choked (mark_piece c.peer_bitfield piece) _
                  (λ bitfield. Always-returned Choked _ choked))))
            (Always-if Choked (id == bitfield_id) _ _
              (Always-any Choked (read_at msg 5 total) _ (λ bits.
                Always-any Choked (write_at c.peer_bitfield 0 bits) _
                  (λ bitfield. Always-returned Choked _ choked)))
              (Always-if Choked (id == request) _ _
                (Always-any Choked (int_at msg 5) _ (λ piece. Always-returned Choked _ choked))
                (Always-if Choked (id == piece_id) _ _ (Always-undefined Choked) (
                  Always-if Choked (id == cancel) _ _ (Always-returned Choked _ choked)
                    (Always-returned Choked _ choked))))))))

-- The id is the fifth byte.
get_next_msg-id :
    (buffer : List ℕ) (id : ℕ)
    → get_elem? buffer 4 ≡ some id
    → Always (λ next. next.msg_id ≡ id) (get_next_msg buffer)
unfolding get_next_msg
get_next_msg-id buffer id fifth = Always-any _ (read_at buffer 0 4) _ (λ size.
    Always-any _ _ _ (λ total.
      Always-any _ (read_at buffer 0 total) _ (λ message. rw fifth (Always-returned _ _ refl))))

handle_message-Choked :
    (total : ℕ) (buffer : List ℕ) (id : ℕ) (test_freed : Bool) (c : Connection)
    → get_elem? buffer 4 ≡ some id
    → is_clearing id ≡ false
    → IsChoked c
    → Always Choked (handle_message total buffer test_freed c)
unfolding handle_message
handle_message-Choked total buffer id test_freed c fifth calm choked =
    Always-bind _ Choked (get_next_msg buffer) _ (get_next_msg-id buffer id fifth) (λ next same.
      respond-Choked total next.message next.msg_id test_freed c (rw same calm) choked)

not_empty :
    (received : List ℕ) (b : ℕ) → get_elem? received 4 ≡ some b → (length received == 0) ≡ false
not_empty [] b e = absurd (cc)
not_empty (x ∷ received) b e = ground arith

module _ (fresh : ℕ → ℕ) (sends : Bool) (total : ℕ) (own own_handshake : List ℕ) where
  greet-Choked :
      (buffer : List ℕ) (c : Connection)
      → IsChoked c
      → Always Withholds (greet fresh sends total own buffer c)
  unfolding greet
  greet-Choked buffer c choked =
      Always-any Withholds (set_peer_bitfield buffer (bitfield_msg_length total)) _ (λ bitfield.
        let c' : Connection = record c { peer_bitfield = bitfield } in
        Always-any Withholds (peer_contains_undownloaded_pieces bitfield own (bitfield_len total)) _
          (λ missing.
            Always-if Withholds missing _ _ (send_interested-Withholds fresh sends c' choked)
              (send_uninterested-Withholds fresh sends c' choked)))

  abbrev ChokedPeer : Peer → Type 0
  ChokedPeer p = IsChoked p.connection

  -- What is received calmly leaves the peer choked.
  pub on_received-Choked :
      (peer : Peer) (received : Received)
      → IsCalm received
      → IsChoked peer.connection
      → Always ChokedPeer (on_received fresh sends total own own_handshake peer received)
  unfolding on_received on_bytes
  on_received-Choked peer failed calm choked = Always-returned ChokedPeer _ choked
  on_received-Choked peer (bytes received) calm choked =
      let buffer = received ++ drop (length received) peer.buffer in
      rw (not_empty received calm.0 calm.1) (
        Always-if ChokedPeer (length received == full_handshake_length) _ _
          (Always-any ChokedPeer (checked_handshake fresh buffer file_sha) _ (λ checked.
            Always-any ChokedPeer (intro_message fresh total own own_handshake) _ (λ intro.
              Always-any ChokedPeer (exit_if (not sends) 1) _
                (λ u. Always-returned ChokedPeer _ choked))))
          (Always-if ChokedPeer
            (length received == full_handshake_length + bitfield_msg_length total) _ _
            (Always-any ChokedPeer (checked_handshake fresh buffer file_sha) _ (λ checked.
              Always-bind Withholds ChokedPeer (greet fresh sends total own checked peer.connection)
                _ (greet-Choked checked peer.connection choked)
                (λ r h. Always-returned ChokedPeer _ h.1)))
            (Always-bind Choked ChokedPeer
              (handle_message total buffer peer.test_freed peer.connection) _
              (handle_message-Choked total buffer calm.0 peer.test_freed peer.connection
                (get_elem?-append received _ 4 calm.0 calm.1) calm.2 choked)
              (λ r h. Always-returned ChokedPeer _ h))))
