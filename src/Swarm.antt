-- ===== src/Swarm.antt =====
-- The tracker and its clients together: what src/tracker_serv.c has registered, and whom main of
-- src/torrent.c finds.
use soft_sys_dubstep_ducks.Prelude.{
  ℕ, ◌≤◌, ◌≡◌, refl, ap, sym, List, [], ◌∷◌, ◌++◌, true, ◌&&◌, not, ok, Outcome, Option, some,
  length, drop, malloc, map, c_text, bytes_eq, bytes_eq_refl, bytes_eq→eq, arith, All, Bool-cases,
  inl, inr, ◌∙◌,
}
use soft_sys_dubstep_ducks.Tracker.Clients.{Ip, ClientList, contains, distinct, without}
use soft_sys_dubstep_ducks.Tracker.Clients.Absent.{added}
use soft_sys_dubstep_ducks.Tracker.Message.{bufsiz, recv_msg, recv_msg-append, has_word-build_msg}
use soft_sys_dubstep_ducks.Tracker.Peers.{list_word}
use soft_sys_dubstep_ducks.Tracker.Peers.Exchange.{max_peers, peer_answer, IsText}
use soft_sys_dubstep_ducks.Tracker.Server.{Server, Accepted, start, handle_client, serve}
use soft_sys_dubstep_ducks.Tracker.Server.Invariant.{
  IsServing, asks, answer, after_all, handle_client_lem, serve_lem,
}
use soft_sys_dubstep_ducks.Tracker.Server.Refinement.{start-IsServing, asked, contains-after_all}
use soft_sys_dubstep_ducks.Torrent.Main.{System, find_peers}
use soft_sys_dubstep_ducks.Torrent.Main.Listed.{IsReached, find_peers-entries}

-- An address that was added is taken away again.
without-append_self : (ip : Ip) (l : ClientList) → without ip (l ++ ip ∷ []) ≡ without ip l
unfolding without
without-append_self ip [] = rw (bytes_eq_refl ip)
without-append_self ip (c ∷ rest) = rw (without-append_self ip rest)

without-added : (ip : Ip) (l : ClientList) → without ip (added l ip) ≡ without ip l
without-added ip l = ground (arith, without-append_self ip l)

bytes_eq_comm : (a b c : Ip) → bytes_eq a c ≡ true → bytes_eq b c ≡ true → bytes_eq a b ≡ true
bytes_eq_comm a b c h k =
    let e : a ≡ c = bytes_eq→eq a c h in
    let e' : b ≡ c = bytes_eq→eq b c k in rw (e, e') (bytes_eq_refl c)

contains-without :
    (j ip : Ip) (l : ClientList) → contains j (without ip l) ≡ (contains j l && not (bytes_eq ip j))
unfolding contains without
contains-without j ip [] = refl
contains-without j ip (c ∷ rest) = ground (
  arith,
  contains-without j ip rest,
  bytes_eq_comm c ip j,
  bytes_eq→eq c ip,
  ap (λ k. bytes_eq k j) {x = c} {y = ip},
)

distinct-without : (ip : Ip) (l : ClientList) → distinct l ≡ true → distinct (without ip l) ≡ true
unfolding distinct without
distinct-without ip [] d = refl
distinct-without ip (c ∷ rest) d =
    ground (arith, distinct-without ip rest, contains-without c ip rest)

All-without : (P : Ip → Type 0) (ip : Ip) (l : ClientList) → All P l → All P (without ip l)
unfolding without
All-without P ip [] h = tt
All-without P ip (c ∷ rest) h = elim (Bool-cases (bytes_eq c ip)) [
  | inl same ↦ rw same (All-without P ip rest h.1)
  | inr other ↦ rw other (h.0, All-without P ip rest h.1)
]

length-without-le : (ip : Ip) (l : ClientList) → length (without ip l) ≤ length l
unfolding without
length-without-le ip [] = omega arith
length-without-le ip (c ∷ rest) = ground (arith, length-without-le ip rest)

-- The question of a client is taken for what it is.
asks-list : (fresh : ℕ → ℕ) → asks (recv_msg fresh (some (4 ∷ list_word))) ≡ true
asks-list fresh =
    rw (recv_msg-append fresh (4 ∷ list_word) (omega arith))
      (has_word-build_msg list_word (drop (length (4 ∷ list_word)) (malloc fresh bufsiz)))

ok-eq :
    {A B : Type 0} {a a' : A} {b b' : B}
    → ◌≡◌ {A = Outcome (A × B)} (ok (a, b)) (ok (a', b'))
    → (a ≡ a') × (b ≡ b')
ok-eq e = (cc, cc)

-- What the server answers to the client's question.
answered :
    (fresh left : ℕ → ℕ) (heap : Ip → ℕ → ℕ) (s s' : Server) (me : Ip) (reply : Option (List ℕ))
    → IsServing s
    → handle_client fresh heap s
        (record { ip = me; received = some (4 ∷ list_word); leftover = left })
      ≡ ok (s', reply)
    → reply ≡ some (answer heap me (added s.c_head me))
answered fresh left heap s s' me reply v e =
    let known =
      handle_client_lem fresh heap s
        (record { ip = me; received = some (4 ∷ list_word); leftover = left }) v in
    (ok-eq (sym e ∙ (rw (asks-list left) at known))).1

-- After whatever connections the tracker has had, a client that reaches it and sends it requestPeers'
-- question finds in its answer, and prints, every address from which the list was asked for before,
-- its own excepted, each once, and no other; if the server's addresses are texts of at most 15 bytes
-- and not more than MAX_PEERS, and the tracker's own address is such a text.
pub find_peers-asked :
    (fresh fresh' left : ℕ → ℕ) (heap : Ip → ℕ → ℕ) (history : List Accepted) (me : Ip)
    (os : System) (announce : List ℕ) (s s' : Server) (given : List (Option (List ℕ)))
    → serve fresh heap start history ≡ ok (s, given)
    → handle_client fresh heap s
        (record { ip = me; received = some (4 ∷ list_word); leftover = left })
      ≡ ok (s', os.tracker_answer)
    → IsReached os
    → IsText announce
    → All IsText s.c_head
    → length s.c_head ≤ max_peers
    → (found : List (List ℕ)) × (find_peers fresh' os announce ≡ ok found)
      × ((ip : Ip) → contains ip (map c_text found) ≡ (asked ip history && not (bytes_eq me ip)))
      × (distinct (map c_text found) ≡ true)
unfolding contains
find_peers-asked fresh fresh' left heap history me os announce s s' given served question reached
      text texts few =
    let serving = serve_lem fresh heap history start start-IsServing in
    let same : s ≡ after_all start history = (ok-eq (sym served ∙ serving.0)).0 in
    let v : IsServing s = rw same serving.1 in
    let others = without me s.c_head in
    let told : os.tracker_answer ≡ some (peer_answer heap others) =
      rw (without-added me s.c_head) at
        (answered fresh left heap s s' me os.tracker_answer v question) in
    let entries =
      find_peers-entries fresh' os heap others announce reached told text
        (All-without IsText me s.c_head texts) (omega (arith, length-without-le me s.c_head)) in
    (
      entries.0,
      entries.1,
      λ ip.
          rw (entries.2, contains-without ip me s.c_head, same, contains-after_all ip history start)
            refl,
      rw entries.2 (distinct-without me s.c_head v.once),
    )
