-- ===== src/Torrent/Main/Started.antt =====
-- What main of src/torrent.c has reached when its loop begins.
use soft_sys_dubstep_ducks.Prelude.{
  ℕ, zero, suc, ◌+◌, ◌*◌, ◌≤◌, ◌≡◌, refl, ◌∙◌, List, [], Bool, true, false, not, ok, Option, arith,
  length, take, length-take, replicate, min, Always, Always-bind, Always-any, Always-ok,
  Always-mono, Always-returned, exit_if, ◌⊎◌, inl, inr, ltb, malloc, Always-self, ltb→lt, c_string,
  exit_if-Always, Bool-cases,
}
use soft_sys_dubstep_ducks.Handshake.{construct_handshake}
use soft_sys_dubstep_ducks.Pieces.{set_initial_bitfield}
use soft_sys_dubstep_ducks.Sockets.{is_negative, configure_socket, sockaddr_size}
use soft_sys_dubstep_ducks.Tracker.Message.{bufsiz}
use soft_sys_dubstep_ducks.Tracker.Reply.{ip_size}
use soft_sys_dubstep_ducks.Tracker.Peers.{request_peers, copy_peers}
use soft_sys_dubstep_ducks.Tracker.Peers.Exchange.{max_peers}
use soft_sys_dubstep_ducks.Connection.{Connection}
use soft_sys_dubstep_ducks.Torrent.{file_sha, own_id}
use soft_sys_dubstep_ducks.Torrent.Connecting.{Arrays, peers_to_connect_to, store}
use soft_sys_dubstep_ducks.Torrent.Connecting.Room.{AllFit, connect_peers-AllFit, store-length}
use soft_sys_dubstep_ducks.Torrent.Loop.{Download, Client}
use soft_sys_dubstep_ducks.Torrent.Rounds.{polling, Reach, accepts}
use soft_sys_dubstep_ducks.Torrent.Rounds.Room.{Reach-accepts}
use soft_sys_dubstep_ducks.Torrent.Main.{
  Metainfo, System, tracker_ip, print_peers, connections_from, find_peers, connect_all, prepare,
}

length-connections_from :
    (connection : ℕ → Connection) (i n : ℕ) → length (connections_from connection i n) ≡ n
unfolding connections_from
length-connections_from connection i zero = refl
length-connections_from connection i (suc n) =
    omega (arith, length-connections_from connection (i + 1) n)

-- The arrays have MAX_PEERS entries, and each peer has one behind that of the listener.
abbrev Connected : System → List (List ℕ) → Arrays → Type 0
Connected os peers arrays =
    (length arrays.connections ≡ 10)
    × (length arrays.fds ≡ 10)
    × (length peers ≤ 9)
    × ((length peers ≡ 0) ⊎ (sockaddr_size ≤ length os.remote_addr))

take-few :
    (peers : List (List ℕ))
    → length (take (peers_to_connect_to (length peers)) peers) ≤ 9
    → length peers ≡ length (take (peers_to_connect_to (length peers)) peers)
unfolding peers_to_connect_to
take-few peers h = elim (Bool-cases (ltb 499 (length peers))) [
  | inl many ↦
      let short : min 499 (length peers) ≤ 9 = rw (length-take 499 peers) at (rw many at h) in
      absurd (omega (arith, short, ltb→lt 499 (length peers) many))
  | inr few ↦ rw few (rw (length-take (length peers) peers) (omega arith))
]

not-false : (b : Bool) → not b ≡ false → b ≡ true
not-false true h = refl
not-false false h = cc

length-nil : {A : Type 0} {xs : List A} → xs ≡ [] → length xs ≡ 0
length-nil e = rw e refl

module _ (fresh : ℕ → ℕ) (os : System) where
  connect_all-Connected :
      (num_pieces : ℕ) (bitfield : List ℕ) (listener_socket : Option ℕ) (peers : List (List ℕ))
      → Always
          (Connected os peers)
          (connect_all fresh os num_pieces bitfield listener_socket peers (length peers))
  unfolding connect_all
  connect_all-Connected num_pieces bitfield listener_socket peers =
      let few = take (peers_to_connect_to (length peers)) peers in
      Always-bind _ (Connected os peers)
        (store (replicate max_peers true) 0 (not (is_negative listener_socket))) _
        (store-length (replicate max_peers true) 0 (not (is_negative listener_socket)))
        (λ fds p.
          let arrays : Arrays = record {
            connections = connections_from os.connection 0 max_peers;
            fds = fds;
            buffer = malloc fresh bufsiz;
          } in
          Always-mono (AllFit os.remote_addr arrays 0 few) (Connected os peers) _
            (connect_peers-AllFit fresh os.inet_pton os.remote_addr os.peer num_pieces bitfield
              arrays 0 few)
            (λ arrays' q.
              let size : length fds ≡ 10 = p.0 in
              let all = take-few peers (omega (arith, q.2, size)) in
              (
                q.0 ∙ length-connections_from os.connection 0 max_peers,
                q.1 ∙ size,
                omega (arith, q.2, size, all),
                elim q.3 [ inl e ↦ inl (all ∙ length-nil e) | inr r ↦ inr r ],
              )))

  -- What has to be so when the loop begins.
  abbrev pub IsStarted : Metainfo → Download × Client → Type 0
  IsStarted ans r =
      (length r.1.connections ≡ 10)
      × (length r.1.fds ≡ 10)
      × (r.1.max_peer_index ≡ 0)
      × (is_negative os.tracker_socket ≡ false)
      × (os.tracker_connects ≡ true)
      × ((peers : List (List ℕ)) × (find_peers fresh os ans.announce ≡ ok peers)
          × (length peers ≤ 9)
          × ((length peers ≡ 0) ⊎ (16 ≤ length os.remote_addr)))

  find_peers-reached :
      (announce : List ℕ)
      → Always
          (λ peers. (is_negative os.tracker_socket ≡ false) × (not os.tracker_connects ≡ false))
          (find_peers fresh os announce)
  unfolding find_peers
  find_peers-reached announce = Always-any P (c_string (tracker_ip fresh announce)) _ (λ text.
      Always-bind _ P (exit_if (is_negative os.tracker_socket) 1) _
        (exit_if-Always (is_negative os.tracker_socket) 1)
        (λ u p.
          Always-bind _ P (exit_if (not os.tracker_connects) 1) _
            (exit_if-Always (not os.tracker_connects) 1)
            (λ v q.
              Always-any P
                (request_peers os.list_sent os.tracker_answer fresh
                  (record { peers = replicate (max_peers * ip_size) 0; num_peers = 0 }))
                _
                (λ r. Always-any P (copy_peers r.1.num_peers 0 r.1.peers) _ (λ peers.
                  Always-any P (print_peers peers) _ (λ texts. Always-returned P peers (p, q)))))))
    where
      P : List (List ℕ) → Type 0
      P peers = (is_negative os.tracker_socket ≡ false) × (not os.tracker_connects ≡ false)

  prepare-Always : (ans : Metainfo) → Always (IsStarted ans) (prepare fresh os ans)
  unfolding prepare
  prepare-Always ans =
      let P = IsStarted ans in
      Always-any P (set_initial_bitfield os.file_destination ans.name ans.num_pieces) _ (λ initial.
        Always-any P (construct_handshake fresh file_sha own_id) _ (λ own_handshake.
          Always-bind _ P (find_peers fresh os ans.announce) _
            (Always-self (find_peers fresh os ans.announce))
            (λ peers found.
              let reached =
                Always-ok _ (find_peers fresh os ans.announce) peers
                  (find_peers-reached ans.announce) found in
              Always-any P (configure_socket os.listener) _ (λ listener_socket.
                Always-bind _ P _ _
                  (connect_all-Connected ans.num_pieces initial.0 listener_socket peers)
                  (λ arrays c. Always-returned P _ (
                    c.0,
                    c.1,
                    refl,
                    reached.0,
                    not-false os.tracker_connects reached.1,
                    (peers, found, c.2, c.3),
                  ))))))

  -- Where main begins its loop, it has reached the tracker and has got at most 9 peers from it, none
  -- unless 16 bytes can be written at its pointer `remote_addr`; the arrays have MAX_PEERS entries, and
  -- no entry is to be visited, the peers' included.
  pub prepare-IsStarted :
      (ans : Metainfo) (d : Download) (s : Client)
      → prepare fresh os ans ≡ ok (d, s)
      → IsStarted ans (d, s)
  prepare-IsStarted ans d s e =
      Always-ok (IsStarted ans) (prepare fresh os ans) (d, s) (prepare-Always ans) e

  -- From the start of main on, at every call of poll, the number of entries to visit is that of the
  -- connections that were accepted, and at most 9.
  pub main_accepts :
      (ans : Metainfo) (d : Download) (s s' : Client)
      → prepare fresh os ans ≡ ok (d, s)
      → (reached : Reach fresh d (polling s) (polling s'))
      → (s'.max_peer_index ≡ accepts reached) × (accepts reached ≤ 9)
  main_accepts ans d s s' e reached =
      let started = prepare-IsStarted ans d s e in
      let counted = Reach-accepts fresh d reached started.0 started.1 (omega (arith, started.2)) in
      (omega (arith, counted.0, started.2), omega (arith, counted.1, started.2))
