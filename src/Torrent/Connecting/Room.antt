-- ===== src/Torrent/Connecting/Room.antt =====
-- How many peers the arrays of main in src/torrent.c have room for.
use soft_sys_dubstep_ducks.Prelude.{
  ℕ, ◌+◌, ◌≤◌, ◌<◌, ◌≡◌, ◌≢◌, refl, List, [], ◌∷◌, true, ok, arith, length, set, length-set,
  get_elem?, Always, Always-bind, Always-any, Always-ok, Always-mono, Always-returned,
  Always-undefined, max, ◌-◌, ◌∙◌, ltb, not, exit_if, or_undefined, Bool-cases, inl, inr, Option,
  ◌⊎◌, undefined, ltb→lt, Always-anything,
}
use soft_sys_dubstep_ducks.Torrent.Connecting.{
  Arrays, Attempt, store, listener_port, connect_peer, connect_peers,
}
use soft_sys_dubstep_ducks.Sockets.{sockaddr_size, client_socket_wrapper}
use soft_sys_dubstep_ducks.Sockets.Address.{client_socket_wrapper-overflow}

pub store-length :
    {A : Type 0} (array : List A) (i : ℕ) (a : A)
    → Always (λ array'. (length array' ≡ length array) × (i < length array)) (store array i a)
unfolding store
store-length array i a = elim (Bool-cases (ltb i (length array))) [
  | inl inside ↦ rw inside (Always-returned _ (set array i a) (length-set array i a, ground arith))
  | inr outside ↦ rw outside (Always-undefined _)
]

-- Peer i has its places in the arrays, which keep their sizes, and an address fits at the pointer.
abbrev Fits : List ℕ → Arrays → ℕ → Arrays → Type 0
Fits remote_addr arrays i arrays' =
    (length arrays'.connections ≡ length arrays.connections)
    × (length arrays'.fds ≡ length arrays.fds)
    × (i < length arrays.connections)
    × (i + 1 < length arrays.fds)
    × (sockaddr_size ≤ length remote_addr)

-- Peers i, i + 1, … have their places.
abbrev pub AllFit : List ℕ → Arrays → ℕ → List (List ℕ) → Arrays → Type 0
AllFit remote_addr arrays i addresses arrays' =
    (length arrays'.connections ≡ length arrays.connections)
    × (length arrays'.fds ≡ length arrays.fds)
    × (i + length addresses ≤ max i (length arrays.fds - 1))
    × ((addresses ≡ []) ⊎ (sockaddr_size ≤ length remote_addr))

wrapper-room :
    (inet_pton : List ℕ → Option (List ℕ)) (socket : Option ℕ) (remote_addr server : List ℕ)
    (port : ℕ)
    → Always
        (λ r. sockaddr_size ≤ length remote_addr)
        (client_socket_wrapper inet_pton socket remote_addr server port)
wrapper-room inet_pton socket remote_addr server port =
    elim (Bool-cases (ltb (length remote_addr) sockaddr_size)) [
      | inl small ↦
          rw
            (client_socket_wrapper-overflow inet_pton socket remote_addr server port
              (ltb→lt _ _ small))
            (Always-undefined _)
      | inr large ↦
          Always-mono (λ r. Unit {0}) _
            (client_socket_wrapper inet_pton socket remote_addr server port) (Always-anything _)
            (λ r u. ground arith)
    ]

module _ (fresh : ℕ → ℕ) (inet_pton : List ℕ → Option (List ℕ)) (remote_addr : List ℕ)
    (system : ℕ → Attempt) (total : ℕ) (own : List ℕ) where
  connect_peer-Fits :
      (arrays : Arrays) (i : ℕ) (address : List ℕ)
      → Always
          (Fits remote_addr arrays i)
          (connect_peer fresh inet_pton remote_addr system total own arrays i address)
  unfolding connect_peer
  connect_peer-Fits arrays i address =
      let P = Fits remote_addr arrays i in
      let attempt = system i in
      Always-bind _ P _ _ (wrapper-room inet_pton attempt.socket remote_addr address listener_port)
        (λ client w.
          Always-bind _ P (store arrays.fds (i + 1) true) _ (store-length arrays.fds (i + 1) true)
            (λ fds p. Always-any P (or_undefined (get_elem? arrays.connections i)) _ (λ c.
              Always-any P (exit_if (not attempt.connects) 1) _ (λ u.
                Always-any P (exit_if (not attempt.sends_handshake) 1) _ (λ v.
                  Always-any P _ _ (λ r.
                    Always-bind _ P (store arrays.connections i r.0) _
                      (store-length arrays.connections i r.0)
                      (λ connections q. Always-returned P _ (q.0, p.0, q.1, p.1, w))))))))

  pub connect_peers-AllFit :
      (arrays : Arrays) (i : ℕ) (addresses : List (List ℕ))
      → Always
          (AllFit remote_addr arrays i addresses)
          (connect_peers fresh inet_pton remote_addr system total own arrays i addresses)
  unfolding connect_peers
  connect_peers-AllFit arrays i [] =
      Always-returned (AllFit remote_addr arrays i []) arrays (refl, refl, omega arith, inl refl)
  connect_peers-AllFit arrays i (address ∷ rest) =
      Always-bind (Fits remote_addr arrays i) (AllFit remote_addr arrays i (address ∷ rest))
        (connect_peer fresh inet_pton remote_addr system total own arrays i address) _
        (connect_peer-Fits arrays i address)
        (λ arrays' p.
          Always-mono (AllFit remote_addr arrays' (i + 1) rest)
            (AllFit remote_addr arrays i (address ∷ rest))
            (connect_peers fresh inet_pton remote_addr system total own arrays' (i + 1) rest)
            (connect_peers-AllFit arrays' (i + 1) rest)
            (λ arrays'' q. (q.0 ∙ p.0, q.1 ∙ p.1, omega (arith, p.1, p.3, q.2), inr p.4)))

  -- Peer 9 would get entry 10 of `fds`, which has MAX_PEERS entries, 10: with so many peers, which is
  -- what the buffer of requestPeers holds, the phase never returns, whatever the memory at the
  -- pointer.
  pub connect_peers_overflow :
      (arrays arrays' : Arrays) (addresses : List (List ℕ))
      → length arrays.fds ≡ 10
      → 10 ≤ length addresses
      → connect_peers fresh inet_pton remote_addr system total own arrays 0 addresses ≢ ok arrays'
  connect_peers_overflow arrays arrays' addresses size many e =
      let fits =
        Always-ok (AllFit remote_addr arrays 0 addresses)
          (connect_peers fresh inet_pton remote_addr system total own arrays 0 addresses) arrays'
          (connect_peers-AllFit arrays 0 addresses) e in
      omega (arith, fits.2)

  -- With the 8 bytes of the pointer alone, the first peer's address is written past them.
  pub connect_peers_pointer :
      (arrays : Arrays) (address : List ℕ) (rest : List (List ℕ))
      → length remote_addr ≡ 8
      → connect_peers fresh inet_pton remote_addr system total own arrays 0 (address ∷ rest)
        ≡ undefined
  unfolding connect_peers connect_peer
  connect_peers_pointer arrays address rest h = rw (
      client_socket_wrapper-overflow inet_pton (system 0).socket remote_addr address listener_port
        (omega arith))
