-- ===== src/Tracker/Peers/Exchange.antt =====
-- requestPeers and sendClients of src/tracker.c together.
use soft_sys_dubstep_ducks.Prelude.{
  c_text, ℕ, zero, suc, ◌+◌, ◌*◌, ◌/◌, ◌%◌, ◌≤◌, ◌<◌, ◌≡◌, ◌≢◌, ◌-◌, refl, ap, List, [], ◌∷◌, ◌++◌,
  true, ok, undefined, some, length, take, drop, malloc, arith, read_at-append, write_at-append,
  write_at_overflow, length-append, map, append_assoc, ==_ne, All,
}
use soft_sys_dubstep_ducks.Tracker.Clients.{Ip, ClientList}
use soft_sys_dubstep_ducks.Tracker.Message.{send_msg, recv_msg-append, bufsiz, build_msg_lem}
use soft_sys_dubstep_ducks.Tracker.Reply.{ip_size, ip_entry}
use soft_sys_dubstep_ducks.Tracker.Reply.Sound.{entries, length-entries, length-ip_entry}
use soft_sys_dubstep_ducks.Tracker.Peers.{
  PeerBuffer, store_peers, request_peers, copy_peers, list_word,
}

module _ (heap : Ip → ℕ → ℕ) where
  -- The answer about the clients `l`, as the server sends it.
  abbrev pub peer_answer : ClientList → List ℕ
  peer_answer l = (length l % 256) ∷ entries heap l

  -- A buffer with room for them receives the entries at its head, and the count.
  pub store_peers-entries :
      (l : ClientList) (rest peers : List ℕ)
      → length l < 256
      → ip_size * length l ≤ length peers
      → store_peers (peer_answer l ++ rest) (record { peers = peers; num_peers = 0 })
        ≡ ok (record {
          peers = entries heap l ++ drop (ip_size * length l) peers;
          num_peers = length l;
        })
  unfolding store_peers
  store_peers-entries l rest peers h room =
      let small : 0 / 256 * 256 + length l % 256 ≡ length l = omega arith in
      rw (
        small,
        read_at-append ((length l % 256) ∷ []) (entries heap l) rest 1 (length l * 16) refl
            (omega (arith, length-entries heap l)),
        write_at-append [] (entries heap l) peers 0 refl (omega (arith, length-entries heap l)),
        length-entries heap l,
      )

  -- A smaller one is overrun.
  pub store_peers-overflow :
      (l : ClientList) (rest peers : List ℕ)
      → length l < 256
      → length peers < ip_size * length l
      → store_peers (peer_answer l ++ rest) (record { peers = peers; num_peers = 0 }) ≡ undefined
  unfolding store_peers
  store_peers-overflow l rest peers h room =
      let small : 0 / 256 * 256 + length l % 256 ≡ length l = omega arith in
      rw (
        small,
        read_at-append ((length l % 256) ∷ []) (entries heap l) rest 1 (length l * 16) refl
            (omega (arith, length-entries heap l)),
        write_at_overflow peers (entries heap l) 0 (omega (arith, length-entries heap l)),
      )

  -- The loop of main finds one entry for each client.
  pub copy_peers-entries :
      (l : ClientList) (before rest : List ℕ) (j : ℕ)
      → length before ≡ ip_size * j
      → copy_peers (length l) j (before ++ (entries heap l ++ rest)) ≡ ok (map (ip_entry heap) l)
  unfolding copy_peers entries
  copy_peers-entries [] before rest j e = refl
  copy_peers-entries (c ∷ l) before rest j e =
      let entry = ip_entry heap c in
      let size : length entry ≡ ip_size = length-ip_entry heap c in
      let ih =
        copy_peers-entries l (before ++ entry) rest (j + 1)
          (omega (arith, length-append before entry)) in
      rw (
        append_assoc,
        read_at-append before entry (entries heap l ++ rest) (ip_size * j) ip_size (omega arith)
            (omega arith),
        rw append_assoc at ih,
      )

-- A text of an address as `inet_ntoa` gives it: no NUL in it, and room for its own NUL in 16 bytes.
abbrev pub IsText : Ip → Type 0
IsText ip = All (λ b. b ≢ 0) ip × (length ip < ip_size)

c_text-entry : (ip rest : List ℕ) → All (λ b. b ≢ 0) ip → c_text (ip ++ 0 ∷ rest) ≡ ip
unfolding c_text
c_text-entry [] rest h = refl
c_text-entry (b ∷ bs) rest h = rw (==_ne b 0 h.0) (ap (◌∷◌ b) (c_text-entry bs rest h.1))

pub take_longer {ℓ} :
    {A : Type ℓ} (xs ys : List A) (n k : ℕ)
    → n ≡ length xs + k
    → take n (xs ++ ys) ≡ xs ++ take k ys
take_longer [] ys n k e = ap (λ i. take i ys) (omega arith)
take_longer (x ∷ xs) ys zero k e = absurd (omega arith)
take_longer (x ∷ xs) ys (suc n) k e = rw (take_longer xs ys n k (omega arith))

-- Whatever stands in memory behind a text, the entry made from it reads as the text.
pub c_text-ip_entry : (heap : Ip → ℕ → ℕ) (ip : Ip) → IsText ip → c_text (ip_entry heap ip) ≡ ip
unfolding ip_entry
c_text-ip_entry heap ip h =
    let k = ip_size - length ip - 1 in
    rw (take_longer ip (0 ∷ malloc (heap ip) ip_size) ip_size (suc k) (omega arith))
      (c_text-entry ip (take k (malloc (heap ip) ip_size)) h.0)

pub c_text-entries :
    (heap : Ip → ℕ → ℕ) (l : ClientList) → All IsText l → map c_text (map (ip_entry heap) l) ≡ l
c_text-entries heap [] h = refl
c_text-entries heap (c ∷ l) h = rw (c_text-ip_entry heap c h.0, c_text-entries heap l h.1)

send_msg-list : (fresh : ℕ → ℕ) → send_msg true fresh list_word ≡ ok (some (4 ∷ list_word), true)
unfolding send_msg
send_msg-list fresh = rw (build_msg_lem fresh list_word)

-- btp.h: MAX_PEERS. The buffer of main has room for so many entries.
abbrev pub max_peers : ℕ
max_peers = 10

module _ (heap : Ip → ℕ → ℕ) (fresh : ℕ → ℕ) (l : ClientList) (peers : List ℕ)
    (room : length peers ≡ max_peers * ip_size) where
  pub request_peers-stored :
      length l ≤ max_peers
      → request_peers true
          (some (peer_answer heap l))
          fresh
          (record { peers = peers; num_peers = 0 })
        ≡ ok (
          some (4 ∷ list_word),
          record {
            peers = entries heap l ++ drop (ip_size * length l) peers;
            num_peers = length l;
          },
        )
  unfolding request_peers
  request_peers-stored few = rw (
    send_msg-list fresh,
    recv_msg-append fresh (peer_answer heap l) (omega (arith, length-entries heap l)),
    store_peers-entries heap l (drop (length (peer_answer heap l)) (malloc fresh bufsiz)) peers
        (omega arith) (omega arith),
  )

  -- `requestPeers` asks with "list", and stores the count and one entry for each client; main then
  -- finds the text of each client, in the server's order. The answer holds at most MAX_PEERS.
  pub request_peers-entries :
      length l ≤ max_peers
      → All IsText l
      → (buffer : PeerBuffer) × (request_peers true
            (some (peer_answer heap l))
            fresh
            (record { peers = peers; num_peers = 0 })
          ≡ ok (some (4 ∷ list_word), buffer))
        × (found : List (List ℕ)) × (copy_peers buffer.num_peers 0 buffer.peers ≡ ok found)
        × (map c_text found ≡ l)
  request_peers-entries few texts = (
    record { peers = entries heap l ++ drop (ip_size * length l) peers; num_peers = length l },
    request_peers-stored few,
    map (ip_entry heap) l,
    copy_peers-entries heap l [] (drop (ip_size * length l) peers) 0 refl,
    c_text-entries heap l texts,
  )

  -- Of more clients than MAX_PEERS the entries are written past the end of the caller's buffer.
  pub request_peers-overflow :
      max_peers < length l
      → length l < 256
      → request_peers true
          (some (peer_answer heap l))
          fresh
          (record { peers = peers; num_peers = 0 })
        ≡ undefined
  unfolding request_peers
  request_peers-overflow many byte = rw (
    send_msg-list fresh,
    recv_msg-append fresh (peer_answer heap l) (omega (arith, length-entries heap l)),
    store_peers-overflow heap l (drop (length (peer_answer heap l)) (malloc fresh bufsiz)) peers
        byte (omega arith),
  )
