-- ===== src/Connection/Choke.antt =====
-- The peer_choke flag of src/btp.h: which functions of src/btp.c leave it set.
use soft_sys_dubstep_ducks.Prelude.{
  ℕ, ◌<◌, ◌≡◌, ◌≢◌, List, [], ◌++◌, int_bytes, some-eq, Bool, false, not, ok, exit_if, some, arith,
  ◌==◌, bit, bit_or-zero, get_elem?, Always, Always-any, Always-returned, ◌>>◌, ◌∙◌,
}
use soft_sys_dubstep_ducks.Wire.{interested, uninterested, unchoke, request, piece_id}
use soft_sys_dubstep_ducks.Wire.Layout.{
  framed, construct_state_message_lem, construct_request_message_lem,
}
use soft_sys_dubstep_ducks.Connection.{
  Connection, own_interested, peer_choke, pending_request, or_flags, set_flag, Sent,
  send_interested, send_uninterested, send_unchoked, send_request,
}
use soft_sys_dubstep_ducks.Connection.Flags.{bit-mod, bit-or_flags, set_flag-set}

-- The peer is choked.
abbrev pub IsChoked : Connection → Type 0
IsChoked c = bit peer_choke c.status_flags ≡ 1

-- The fifth byte of a message, which is its id, is not that of PIECE.
abbrev pub IsOther : List ℕ → Type 0
IsOther m = get_elem? m 4 ≢ some piece_id

-- What is sent is not a PIECE message, and the peer is choked afterwards.
abbrev pub Withholds : Sent → Type 0
Withholds r = IsOther r.0 × IsChoked r.1

bit-or_zero : (flags : ℕ) → bit peer_choke (or_flags flags 0) ≡ bit peer_choke flags
bit-or_zero flags = rw (bit_or-zero flags) (bit-mod peer_choke flags (omega arith))

framed-IsOther : (id : ℕ) (payload : List ℕ) → id ≢ piece_id → IsOther (framed id payload)
framed-IsOther id payload h e = h (some-eq e)

sent-Withholds :
    (sends : Bool) (r : Sent) → Withholds r → Always Withholds (exit_if (not sends) 1 >> ok r)
sent-Withholds sends r h =
    Always-any Withholds (exit_if (not sends) 1) _ (λ u. Always-returned Withholds r h)

module _ (fresh : ℕ → ℕ) (sends : Bool) (c : Connection) (choked : IsChoked c) where
  pub send_interested-Withholds : Always Withholds (send_interested fresh sends c)
  unfolding send_interested
  send_interested-Withholds = rw (construct_state_message_lem fresh interested) (
      sent-Withholds sends _ (
        framed-IsOther interested [] (λ e. omega arith),
        bit-or_flags c.status_flags own_interested peer_choke (omega arith) (omega arith) ∙ choked,
      ))

  pub send_uninterested-Withholds : Always Withholds (send_uninterested fresh sends c)
  unfolding send_uninterested
  send_uninterested-Withholds = rw (construct_state_message_lem fresh uninterested) (
      sent-Withholds sends _
        (framed-IsOther uninterested [] (λ e. omega arith), bit-or_zero c.status_flags ∙ choked))

  pub send_unchoked-Withholds : Always Withholds (send_unchoked fresh sends c)
  unfolding send_unchoked
  send_unchoked-Withholds = rw (construct_state_message_lem fresh unchoke) (
      sent-Withholds sends _
        (framed-IsOther unchoke [] (λ e. omega arith), bit-or_zero c.status_flags ∙ choked))

  pub send_request-Withholds :
      (piece_index : ℕ) → Always Withholds (send_request fresh sends c piece_index)
  unfolding send_request
  send_request-Withholds piece_index = rw (construct_request_message_lem fresh piece_index 0 0) (
      sent-Withholds sends _ (
        framed-IsOther request (int_bytes piece_index ++ (int_bytes 0 ++ int_bytes 0))
            (λ e. omega arith),
        bit-or_flags c.status_flags pending_request peer_choke (omega arith) (omega arith) ∙ choked,
      ))

-- Setting another flag.
pub set_flag-IsChoked :
    (c : Connection) (flag : ℕ)
    → flag < 8
    → (flag == peer_choke) ≡ false
    → IsChoked c
    → IsChoked (set_flag c flag 1)
set_flag-IsChoked c flag h other choked =
    rw ((set_flag-set c flag peer_choke h (omega arith)).0, other) choked
