-- ===== src/Torrent/Main/Listed.antt =====
-- main of src/torrent.c and the tracker's list: whom main finds, and how it starts when it finds
-- nobody.
use soft_sys_dubstep_ducks.Prelude.{
  ltb, ℕ, suc, ◌+◌, ◌*◌, ◌/◌, ◌%◌, ◌-◌, ◌≤◌, ◌≡◌, refl, List, [], ◌∷◌, ◌++◌, true, false, ok, some,
  arith, length, take, drop, malloc, replicate, All, map, c_text, c_string, c_string-append,
  if◌then◌else◌, ◌==◌,
}
use soft_sys_dubstep_ducks.Handshake.{bt_protocol, protocol_name_length}
use soft_sys_dubstep_ducks.Handshake.Verify.{handshake_of, construct_handshake_lem}
use soft_sys_dubstep_ducks.Pieces.{is_plain, set_initial_bitfield}
use soft_sys_dubstep_ducks.Sockets.{is_negative, configure_socket}
use soft_sys_dubstep_ducks.Tracker.Clients.{Ip, ClientList}
use soft_sys_dubstep_ducks.Tracker.Message.{bufsiz}
use soft_sys_dubstep_ducks.Tracker.Reply.{ip_size, ip_entry}
use soft_sys_dubstep_ducks.Tracker.Reply.Sound.{entries}
use soft_sys_dubstep_ducks.Tracker.Peers.Exchange.{
  max_peers, peer_answer, IsText, take_longer, request_peers-stored, copy_peers-entries,
  c_text-entries,
}
use soft_sys_dubstep_ducks.Torrent.{file_sha, own_id}
use soft_sys_dubstep_ducks.Torrent.Connecting.{peers_to_connect_to, store, connect_peers}
use soft_sys_dubstep_ducks.Torrent.Loop.{Download, Client}
use soft_sys_dubstep_ducks.Torrent.Main.{
  Metainfo, System, print_peers, connections_from, find_peers, connect_all, prepare,
}

-- The tracker can be reached, and gets the question.
pub record IsReached (os : System) : Type 0 where
  pub has_socket : is_negative os.tracker_socket ≡ false
  pub connects : os.tracker_connects ≡ true
  pub asked : os.list_sent ≡ true

-- An entry of 16 bytes made from a text reads as the text.
c_string-entry :
    (block : List ℕ) (text : List ℕ)
    → IsText text
    → c_string (take ip_size (text ++ 0 ∷ block)) ≡ ok text
c_string-entry block text h =
    let k = ip_size - length text - 1 in
    rw (take_longer text (0 ∷ block) ip_size (suc k) (omega arith))
      (c_string-append text (take k block) h.0)

print_peers-entries :
    (heap : Ip → ℕ → ℕ) (l : ClientList) → All IsText l → print_peers (map (ip_entry heap) l) ≡ ok l
unfolding print_peers ip_entry
print_peers-entries heap [] h = refl
print_peers-entries heap (c ∷ l) h =
    rw (c_string-entry (malloc (heap c) ip_size) c h.0, print_peers-entries heap l h.1)

module _ (fresh : ℕ → ℕ) (os : System) (heap : Ip → ℕ → ℕ) (l : ClientList)
    (announce : List ℕ) where
  found_entries :
      IsReached os
      → os.tracker_answer ≡ some (peer_answer heap l)
      → IsText announce
      → All IsText l
      → length l ≤ max_peers
      → find_peers fresh os announce ≡ ok (map (ip_entry heap) l)
  unfolding find_peers
  found_entries reached answered text texts few =
      let blank = replicate {A = ℕ} (max_peers * ip_size) 0 in
      rw (
        c_string-entry (malloc fresh ip_size) announce text,
        reached.has_socket,
        reached.connects,
        reached.asked,
        answered,
        request_peers-stored heap fresh l blank refl few,
        copy_peers-entries heap l [] (drop (ip_size * length l) blank) 0 refl,
        print_peers-entries heap l texts,
      )

  -- From an answer with the entries of at most MAX_PEERS clients, main finds and prints the address of
  -- each, in the server's order, if the tracker's own address is a text of at most 15 bytes.
  pub find_peers-entries :
      IsReached os
      → os.tracker_answer ≡ some (peer_answer heap l)
      → IsText announce
      → All IsText l
      → length l ≤ max_peers
      → (found : List (List ℕ)) × (find_peers fresh os announce ≡ ok found) × (map c_text found ≡ l)
  find_peers-entries reached answered text texts few = (
    map (ip_entry heap) l,
    found_entries reached answered text texts few,
    c_text-entries heap l texts,
  )

-- The client that main starts its loop with when it has connected to nobody.
abbrev pub lone_client : (ℕ → ℕ) → System → Client
lone_client fresh os = record {
  connections = connections_from os.connection 0 max_peers;
  fds = replicate max_peers true;
  buffer = malloc fresh bufsiz;
  max_peer_index = 0;
  test_freed = false;
}

connect_all-nobody :
    (fresh : ℕ → ℕ) (os : System) (num_pieces : ℕ) (bitfield : List ℕ) (listener_socket : ℕ)
    → connect_all fresh os num_pieces bitfield (some listener_socket) [] 0
      ≡ ok (record {
        connections = connections_from os.connection 0 max_peers;
        fds = replicate max_peers true;
        buffer = malloc fresh bufsiz;
      })
unfolding connect_all connect_peers store peers_to_connect_to
connect_all-nobody fresh os num_pieces bitfield listener_socket = refl

-- Its handshake, no piece, and the fewest bytes that have a bit for each piece.
abbrev pub lone_download : System → Metainfo → Download
lone_download os ans = record {
  fd = os.opened os.file_destination;
  total_pieces_in_file = ans.num_pieces;
  piece_size_bytes = ans.piece_length;
  own = replicate ((ans.num_pieces + 7) / 8) 0;
  own_handshake = handshake_of protocol_name_length bt_protocol (replicate 8 0) file_sha own_id;
  pollout = λ i. ltb i 1;
}

pub prepare-alone :
    (fresh : ℕ → ℕ) (os : System) (ans : Metainfo) (listener_socket : ℕ)
    → IsReached os
    → os.tracker_answer ≡ some (0 ∷ [])
    → configure_socket os.listener ≡ ok (some listener_socket)
    → IsText ans.announce
    → is_plain ans.name ≡ true
    → prepare fresh os ans ≡ ok (lone_download os ans, lone_client fresh os)
unfolding prepare set_initial_bitfield entries peers_to_connect_to
prepare-alone fresh os ans listener_socket reached answered listening text plain =
    rw
      (
        plain,
        construct_handshake_lem fresh file_sha own_id [] [] refl refl,
        found_entries fresh os (λ ip i. 0) [] ans.announce reached answered text tt (omega arith),
        enough ans.num_pieces,
        listening,
        connect_all-nobody fresh os ans.num_pieces (replicate ((ans.num_pieces + 7) / 8) 0)
            listener_socket,
      )
      refl
  where
    enough : (n : ℕ) → (if n % 8 == 0 then n / 8 else n / 8 + 1) ≡ (n + 7) / 8
    enough n = ground arith
