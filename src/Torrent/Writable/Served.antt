-- ===== src/Torrent/Writable/Served.antt =====
-- What a connection gets from main in src/torrent.c when its socket can be written to.
use soft_sys_dubstep_ducks.Prelude.{
  ℕ, ◌<◌, ◌≡◌, refl, List, [], ◌∷◌, ◌++◌, Bool, true, false, ◌&&◌, ◌||◌, not, ok, exits, Option,
  some, arith, if◌then◌else◌, ◌==◌, get_elem?, set, set_same, bit, int_bytes, load, Outcome, ◌>>=◌,
}
use soft_sys_dubstep_ducks.Wire.{unchoke, request, uninterested}
use soft_sys_dubstep_ducks.Wire.Layout.{framed}
use soft_sys_dubstep_ducks.Bitfield.{peer_contains_undownloaded_pieces}
use soft_sys_dubstep_ducks.Connection.{
  Connection, own_interested, own_choke, peer_interested, peer_choke, pending_request,
}
use soft_sys_dubstep_ducks.Connection.Sends.{
  send_unchoked_lem, send_request_lem, send_uninterested_lem,
}
use soft_sys_dubstep_ducks.Torrent.{bitfield_len}
use soft_sys_dubstep_ducks.Torrent.Writable.{on_writable, first_missing, request_found, deliver}

-- What follows on something that is sent.
sent_or_exit {ℓ κ} :
    {A : Type ℓ} {B : Type κ} (sends : Bool) (a : A) (f : A → Outcome B)
    → ((if sends then ok a else exits 1) >>= f) ≡ (if sends then f a else exits 1)
sent_or_exit true a f = refl
sent_or_exit false a f = refl

module _ (fresh : ℕ → ℕ) (sends : Bool) (fd : Option (List ℕ)) (total len : ℕ) (own : List ℕ)
    (connections : List Connection) (i : ℕ) (c : Connection)
    (here : get_elem? connections i ≡ some c) where
  -- A peer that is interested and choked, and of which nothing is wanted or a piece is awaited, is
  -- sent UNCHOKE, and no connection changes: it is choked for the next round as well.
  pub on_writable_unchokes :
      c.status_flags < 256
      → bit peer_interested c.status_flags ≡ 1
      → bit peer_choke c.status_flags ≡ 1
      → (bit own_interested c.status_flags == 0 || bit pending_request c.status_flags == 1) ≡ true
      → on_writable fresh sends fd total len own connections i ≡ (
          if sends
          then ok
              (record { sent = some (i, framed unchoke []); connections = connections; next = i })
          else exits 1)
  unfolding on_writable
  on_writable_unchokes byte asks choked idle =
      let idle' : (not (bit own_interested c.status_flags == 1)
            || bit pending_request c.status_flags == 1)
          ≡ true =
        ground arith in
      rw (
        here,
        asks,
        choked,
        send_unchoked_lem fresh sends c byte,
        idle',
        sent_or_exit sends (framed unchoke [], c) (λ r. ok (deliver connections i r)),
        set_same connections i c here,
      )

  -- Without a pending request, towards a peer that is not interested or of which something is wanted,
  -- it depends on whether the peer has a missing piece.
  module _ (idle : bit pending_request c.status_flags ≡ 0)
      (quiet : (bit peer_interested c.status_flags == 0 || bit own_interested c.status_flags == 1)
        ≡ true) where
    takes_part :
        (bit peer_interested c.status_flags == 1
          && (not (bit own_interested c.status_flags == 1) || false))
        ≡ false
    takes_part = ground arith

    -- If the peer has none it is sent UNINTERESTED, and no connection changes.
    pub on_writable_refuses :
        c.status_flags < 256
        → peer_contains_undownloaded_pieces c.peer_bitfield own (bitfield_len total) ≡ ok false
        → on_writable fresh sends fd total len own connections i ≡ (
            if sends
            then ok (record {
              sent = some (i, framed uninterested []);
              connections = connections;
              next = i;
            })
            else exits 1)
    unfolding on_writable
    on_writable_refuses byte lacks = rw (
      here,
      idle,
      takes_part,
      lacks,
      send_uninterested_lem fresh sends c byte,
      sent_or_exit sends (framed uninterested [], c) (λ r. ok (deliver connections i r)),
      set_same connections i c here,
    )

    -- If the peer has one, and the client is interested and not choked, the piece that the search over
    -- all connections finds is requested. The request goes to the connection whose number is that of the piece, and that
    -- connection waits for it, whichever connection could be written to; the loop goes on from there.
    pub on_writable_asks :
        (o : ℕ) (os : List ℕ) (k j : ℕ) (d : Connection)
        → bit own_interested c.status_flags ≡ 1
        → bit own_choke c.status_flags ≡ 0
        → peer_contains_undownloaded_pieces c.peer_bitfield own (bitfield_len total) ≡ ok true
        → own ≡ o ∷ os
        → first_missing o connections total 0 ≡ ok (some k)
        → get_elem? connections k ≡ some d
        → j < 8
        → (flags : ℕ) × (on_writable fresh sends fd total len own connections i ≡ (
            if sends
            then ok (record {
              sent = some (k, framed request (int_bytes k ++ (int_bytes 0 ++ int_bytes 0)));
              connections =
                  set connections k (record d { status_flags = flags; requested_piece = k });
              next = k;
            })
            else exits 1))
          × (bit j flags ≡ (if pending_request == j then 1 else bit j d.status_flags))
    unfolding on_writable request_found
    on_writable_asks o os k j d wants free has e found there j< =
        let asked = send_request_lem fresh sends d k j j< in
        let first : load own 0 ≡ ok o = rw e in
        (
          asked.0,
          rw (
            here,
            idle,
            takes_part,
            has,
            wants,
            free,
            first,
            found,
            there,
            asked.1,
            sent_or_exit sends
                (
                  framed request (int_bytes k ++ (int_bytes 0 ++ int_bytes 0)),
                  record d { status_flags = asked.0; requested_piece = k },
                )
                (λ r. ok (deliver connections k r)),
          ),
          asked.2,
        )
