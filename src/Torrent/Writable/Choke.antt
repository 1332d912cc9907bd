-- ===== src/Torrent/Writable/Choke.antt =====
-- What main in src/torrent.c writes while the peers are choked.
use soft_sys_dubstep_ducks.Prelude.{
  ℕ, List, All, All-set, All-get, Bool, Outcome, ok, ◌>>=◌, Option, none, some, get_elem?, load,
  or_undefined, or_undefined-eq, Always, Always-any, Always-bind, Always-if, Always-returned,
  Always-undefined, bit, ◌==◌,
}
use soft_sys_dubstep_ducks.Bitfield.{peer_contains_undownloaded_pieces}
use soft_sys_dubstep_ducks.Connection.{Connection, own_interested, own_choke, Sent}
use soft_sys_dubstep_ducks.Connection.Choke.{
  IsChoked, IsOther, Withholds, send_interested-Withholds, send_uninterested-Withholds,
  send_unchoked-Withholds, send_request-Withholds,
}
use soft_sys_dubstep_ducks.Torrent.{bitfield_len}
use soft_sys_dubstep_ducks.Torrent.Writable.{
  Written, nothing_written, deliver, first_missing, request_found, on_writable,
}

-- What is sent is not a PIECE message.
abbrev pub IsWithheld : Option (ℕ × List ℕ) → Type 0
IsWithheld none = Unit
IsWithheld (some m) = IsOther m.1

-- The peers are choked, and no PIECE message is sent.
abbrev pub KeepsChoked : Written → Type 0
KeepsChoked w = All IsChoked w.connections × IsWithheld w.sent

module _ (connections : List Connection) (choked : All IsChoked connections) where
  delivered :
      (i : ℕ) (m : Outcome Sent)
      → Always Withholds m
      → Always KeepsChoked (m >>= λ r. ok (deliver connections i r))
  delivered i m h =
      Always-bind Withholds KeepsChoked m _ h
        (λ r p. Always-returned KeepsChoked _ (All-set IsChoked connections i r.1 choked p.1, p.0))

  request_found-KeepsChoked :
      (fresh : ℕ → ℕ) (sends : Bool) (found : Option ℕ)
      → Always KeepsChoked (request_found fresh sends connections found)
  unfolding request_found
  request_found-KeepsChoked fresh sends none = Always-undefined KeepsChoked
  request_found-KeepsChoked fresh sends (some k) =
      Always-bind _ KeepsChoked (or_undefined (get_elem? connections k)) _
        (or_undefined-eq (get_elem? connections k))
        (λ c here.
          delivered k _
            (send_request-Withholds fresh sends c (All-get IsChoked connections k c choked here) k))

  -- While the peers are choked no PIECE message is written, and they are choked afterwards.
  pub on_writable-KeepsChoked :
      (fresh : ℕ → ℕ) (sends : Bool) (fd : Option (List ℕ)) (total len : ℕ) (own : List ℕ) (i : ℕ)
      → Always KeepsChoked (on_writable fresh sends fd total len own connections i)
  unfolding on_writable
  on_writable-KeepsChoked fresh sends fd total len own i =
      Always-bind _ KeepsChoked (or_undefined (get_elem? connections i)) _
        (or_undefined-eq (get_elem? connections i))
        (λ c here.
          let k : IsChoked c = All-get IsChoked connections i c choked here in
          let unwritten =
            Always-returned KeepsChoked (nothing_written connections i) (choked, tt) in
          rw k (
            Always-if KeepsChoked _ _ _ (delivered i _ (send_unchoked-Withholds fresh sends c k)) (
              Always-if KeepsChoked _ _ _ unwritten (
                Always-any KeepsChoked
                  (peer_contains_undownloaded_pieces c.peer_bitfield own (bitfield_len total)) _
                  (λ missing.
                    Always-if KeepsChoked missing _ _
                      (Always-if KeepsChoked (bit own_interested c.status_flags == 1) _ _
                        (Always-if KeepsChoked (bit own_choke c.status_flags == 1) _ _ unwritten (
                          Always-any KeepsChoked (load own 0) _ (λ own_byte.
                            Always-any KeepsChoked (first_missing own_byte connections total 0) _
                              (λ found. request_found-KeepsChoked fresh sends found))))
                        (delivered i _ (send_interested-Withholds fresh sends c k)))
                      (delivered i _ (send_uninterested-Withholds fresh sends c k)))))))
