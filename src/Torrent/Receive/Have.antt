-- ===== src/Torrent/Receive/Have.antt =====
-- The HAVE messages that main in src/torrent.c receives, and the block `test`.
use soft_sys_dubstep_ducks.Prelude.{
  ℕ, ◌+◌, ◌≤◌, ◌≡◌, refl, List, [], ◌∷◌, ◌++◌, Bool, true, false, ◌&&◌, not, Option, none, some, ok,
  exit_if, arith, ◌==◌, ==_iff, load, or_undefined-eq, Always-mono, get_elem?, get_elem?-append,
  length, drop, read_at, write_at, Always, Always-any, Always-bind, Always-if, Always-returned,
  Always-undefined, if◌then◌else◌, Bool-cases, inl, inr,
}
use soft_sys_dubstep_ducks.Wire.{
  choke, unchoke, interested, uninterested, have, bitfield_id, request, piece_id, cancel,
  get_next_msg,
}
use soft_sys_dubstep_ducks.Wire.RoundTrip.{int_at}
use soft_sys_dubstep_ducks.Handshake.{full_handshake_length, checked_handshake}
use soft_sys_dubstep_ducks.Connection.{Connection}
use soft_sys_dubstep_ducks.Torrent.{bitfield_msg_length, file_sha}
use soft_sys_dubstep_ducks.Torrent.Messages.{mark_piece, respond, handle_message}
use soft_sys_dubstep_ducks.Torrent.Receive.{
  Received, failed, bytes, Peer, intro_message, greet, on_bytes, on_received,
}

abbrev pub is_have_id : Option ℕ → Bool
is_have_id none = false
is_have_id (some id) = id == have

-- What is received is taken for a HAVE message: its fifth byte is that id, and its length is not one
-- of a handshake, alone or with a bitfield.
abbrev pub is_have : ℕ → Received → Bool
is_have total failed = false
is_have total (bytes received) =
    not (length received == full_handshake_length)
    && (not (length received == full_handshake_length + bitfield_msg_length total)
        && is_have_id (get_elem? received 4))

abbrev pub as_number : Bool → ℕ
as_number b = if b then 1 else 0

-- The block is freed behind a HAVE, and was not before; otherwise it is as it was.
abbrev pub Counts : Bool → Bool → Bool → Type 0
Counts received_have before after = as_number received_have + as_number before ≤ as_number after

have-Counts :
    (total : ℕ) (msg : List ℕ) (test_freed : Bool) (c : Connection)
    → Always (λ r. Counts true test_freed r.1) (respond total msg have test_freed c)
unfolding respond
have-Counts total msg true c = Always-undefined _
have-Counts total msg false c = Always-any _ (int_at msg 5) _ (λ piece.
    Always-any _ (mark_piece c.peer_bitfield piece) _
      (λ bitfield. Always-returned _ _ (omega arith)))

other-Counts :
    (total : ℕ) (msg : List ℕ) (id : ℕ) (test_freed : Bool) (c : Connection)
    → (id == have) ≡ false
    → Always (λ r. Counts false test_freed r.1) (respond total msg id test_freed c)
unfolding respond
other-Counts total msg id test_freed c other = rw other (
    Always-if P (id == choke) _ _ (same _) (
      Always-if P (id == unchoke) _ _ (same _) (
        Always-if P (id == interested) _ _ (same _) (
          Always-if P (id == uninterested) _ _ (same _) (
            Always-if P (id == bitfield_id) _ _
              (Always-any P (read_at msg 5 total) _
                (λ bits. Always-any P (write_at c.peer_bitfield 0 bits) _ (λ bitfield. same _)))
              (Always-if P (id == request) _ _ (Always-any P (int_at msg 5) _ (λ piece. same _)) (
                Always-if P (id == piece_id) _ _ (Always-undefined P)
                  (Always-if P (id == cancel) _ _ (same _) (same _)))))))))
  where
    P : Connection × Bool → Type 0
    P r = Counts false test_freed r.1

    same : (c' : Connection) → Always P (ok (c', test_freed))
    same c' = Always-returned P (c', test_freed) (omega arith)

respond-Counts :
    (total : ℕ) (msg : List ℕ) (id : ℕ) (test_freed : Bool) (c : Connection)
    → Always (λ r. Counts (id == have) test_freed r.1) (respond total msg id test_freed c)
respond-Counts total msg id test_freed c = elim (Bool-cases (id == have)) [
  | inl same ↦
      let e : id ≡ have = (==_iff id have).0 same in rw e (have-Counts total msg test_freed c)
  | inr other ↦ rw other (other-Counts total msg id test_freed c other)
]

-- A fifth byte that is there is the id.
get_next_msg-is_have :
    (buffer : List ℕ) (received_have : Bool)
    → (received_have ≡ true → is_have_id (get_elem? buffer 4) ≡ true)
    → Always (λ next. received_have ≡ true → (next.msg_id == have) ≡ true) (get_next_msg buffer)
unfolding get_next_msg
get_next_msg-is_have buffer received_have fifth = Always-any _ (read_at buffer 0 4) _ (λ size.
    Always-any _ _ _ (λ total. Always-any _ (read_at buffer 0 total) _ (λ message.
      Always-bind (λ id. get_elem? buffer 4 ≡ some id) _ (load buffer 4) _
        (or_undefined-eq (get_elem? buffer 4))
        (λ id e. Always-returned _ _ (λ h. (rw e at (fifth h)))))))

handle_message-Counts :
    (total : ℕ) (buffer : List ℕ) (received_have test_freed : Bool) (c : Connection)
    → (received_have ≡ true → is_have_id (get_elem? buffer 4) ≡ true)
    → Always (λ r. Counts received_have test_freed r.1) (handle_message total buffer test_freed c)
unfolding handle_message
handle_message-Counts total buffer received_have test_freed c fifth =
    Always-bind _ _ (get_next_msg buffer) _ (get_next_msg-is_have buffer received_have fifth)
      (λ next same.
        Always-mono _ _ _ (respond-Counts total next.message next.msg_id test_freed c)
          (λ r k. weaker (next.msg_id == have) received_have test_freed r.1 same k))
  where
    weaker :
        (x y before after : Bool)
        → (y ≡ true → x ≡ true)
        → Counts x before after
        → Counts y before after
    weaker x true before after h k = rw (h refl) at k
    weaker x false before after h k = omega (arith, k)

is_have-none : (total : ℕ) → is_have total (bytes []) ≡ false
is_have-none total = ground arith

is_have_id-append :
    (xs ys : List ℕ)
    → is_have_id (get_elem? xs 4) ≡ true
    → is_have_id (get_elem? (xs ++ ys) 4) ≡ true
is_have_id-append xs ys h = by_byte (get_elem? xs 4) refl h
  where
    by_byte :
        (o : Option ℕ)
        → get_elem? xs 4 ≡ o
        → is_have_id o ≡ true
        → is_have_id (get_elem? (xs ++ ys) 4) ≡ true
    by_byte none e k = absurd (cc)
    by_byte (some id) e k = rw (get_elem?-append xs ys 4 id e) k

module _ (fresh : ℕ → ℕ) (sends : Bool) (total : ℕ) (own own_handshake : List ℕ) where
  -- The block `test` is freed behind what is taken for a HAVE, which is undefined if it was freed.
  pub on_received-Counts :
      (peer : Peer) (received : Received)
      → Always
          (λ p. Counts (is_have total received) peer.test_freed p.test_freed)
          (on_received fresh sends total own own_handshake peer received)
  unfolding on_received on_bytes
  on_received-Counts peer failed = Always-returned _ _ (omega arith)
  on_received-Counts peer (bytes []) = rw (is_have-none total) (Always-returned _ _ (omega arith))
  on_received-Counts peer (bytes (b ∷ rest)) =
      let received = b ∷ rest in
      let n = length received in
      let buffer = received ++ drop n peer.buffer in
      let not_empty : (n == 0) ≡ false = ground arith in
      rw not_empty (elim (Bool-cases (n == full_handshake_length)) [
        | inl greets ↦ rw greets (
            Always-any _ (checked_handshake fresh buffer file_sha) _ (λ checked.
              Always-any _ (intro_message fresh total own own_handshake) _ (λ intro.
                Always-any _ (exit_if (not sends) 1) _ (λ u. Always-returned _ _ (omega arith)))))
        | inr no_handshake ↦
            rw no_handshake
              (elim (Bool-cases (n == full_handshake_length + bitfield_msg_length total)) [
                | inl greets ↦ rw greets (
                    Always-any _ (checked_handshake fresh buffer file_sha) _ (λ checked.
                      Always-any _ (greet fresh sends total own checked peer.connection) _
                        (λ r. Always-returned _ _ (omega arith))))
                | inr message ↦ rw message (
                    Always-bind _ _ (handle_message total buffer peer.test_freed peer.connection) _
                      (handle_message-Counts total buffer (is_have_id (get_elem? received 4))
                        peer.test_freed peer.connection
                        (is_have_id-append received (drop n peer.buffer)))
                      (λ r k. Always-returned _ _ k))
              ])
      ])
