-- ===== src/Threads/Pointers.antt =====
-- The addresses that the threads of examples/tracker/tracker2.c point to.
use soft_sys_dubstep_ducks.Prelude.{
  ℕ, if-both, ◌+◌, ◌*◌, ◌%◌, ◌≡◌, refl, List, [], ◌∷◌, Bool, true, false, Option, none, some, All,
  All-set, Always, Always-any, Always-bind, Always-if, Always-returned, Always-undefined, load,
  length, get_elem?, ltb, or_undefined, write_at, read_at, if◌then◌else◌, ◌==◌,
}
use soft_sys_dubstep_ducks.Tracker.Clients.{Ip}
use soft_sys_dubstep_ducks.Tracker.Message.{send_msg, recv_msg, has_word}
use soft_sys_dubstep_ducks.Tracker.Reply.{ip_entry}
use soft_sys_dubstep_ducks.Tracker.Peers.{list_word, join_word, joined_word}
use soft_sys_dubstep_ducks.Torrent.Connecting.{store}
use soft_sys_dubstep_ducks.Threads.{
  max_clients, failed_word, Memory, Pc, starting, got_socket, receiving, testing, indexing, loading,
  storing, answering, listing, heading, measuring, copying, ended, Input, command, behind_add,
  Stepped, copy_client, advance,
}
use soft_sys_dubstep_ducks.Threads.System.{MainPc, accepting, naming, creating, State}

module _ (ntoa : ℕ) where
  abbrev pub PointsThere : Option ℕ → Type 0
  PointsThere none = Unit
  PointsThere (some p) = p ≡ ntoa

  -- The pointer of a handler is that of inet_ntoa's buffer.
  abbrev pub HasBuffer : Pc → Type 0
  HasBuffer starting = Unit
  HasBuffer (got_socket fd) = Unit
  HasBuffer (receiving fd ip) = ip ≡ ntoa
  HasBuffer (testing fd ip lists) = ip ≡ ntoa
  HasBuffer (indexing fd ip lists) = ip ≡ ntoa
  HasBuffer (loading fd ip lists) = ip ≡ ntoa
  HasBuffer (storing fd ip lists n) = ip ≡ ntoa
  HasBuffer (answering fd ip added) = ip ≡ ntoa
  HasBuffer (listing fd ip) = ip ≡ ntoa
  HasBuffer (heading fd ip block) = ip ≡ ntoa
  HasBuffer (measuring fd ip block) = ip ≡ ntoa
  HasBuffer (copying fd ip block dl i) = ip ≡ ntoa
  HasBuffer ended = Unit

  -- args.ip is written before there is a thread.
  abbrev pub ArgsWritten : ℕ → MainPc → List Pc → Type 0
  ArgsWritten p creating threads = p ≡ ntoa
  ArgsWritten p accepting [] = Unit
  ArgsWritten p accepting (pc ∷ threads) = p ≡ ntoa
  ArgsWritten p (naming ip) [] = Unit
  ArgsWritten p (naming ip) (pc ∷ threads) = p ≡ ntoa

  pub record IsAliased (s : State) : Type 0 where
    pub known : All PointsThere s.memory.clients
    pub handlers : All HasBuffer s.threads
    pub written : ArgsWritten s.memory.args_ip s.main s.threads

  -- What a step of a thread leaves as it is.
  abbrev pub Keeps : Memory → Stepped → Type 0
  Keeps m r =
      All PointsThere r.0.clients
      × HasBuffer r.1
      × (r.0.args_ip ≡ m.args_ip)
      × (r.0.texts ≡ m.texts)

  behind_add-HasBuffer :
      (fd ip : ℕ) (lists added : Bool) → ip ≡ ntoa → HasBuffer (behind_add fd ip lists added)
  behind_add-HasBuffer fd ip true added e = e
  behind_add-HasBuffer fd ip false added e = e

  command-HasBuffer :
      (fd ip first : ℕ) (msg : List ℕ) → ip ≡ ntoa → HasBuffer (command fd ip first msg)
  unfolding command
  command-HasBuffer fd ip first msg e = if-both HasBuffer (first == 0) _ _ tt (
      if-both HasBuffer (has_word msg join_word) _ _ e
        (if-both HasBuffer (has_word msg list_word) _ _ e e))

  store-known :
      (clients : List (Option ℕ)) (i ip : ℕ)
      → All PointsThere clients
      → ip ≡ ntoa
      → Always (All PointsThere) (store clients i (some ip))
  unfolding store
  store-known clients i ip known e =
      Always-if _ (ltb i (length clients)) _ _
        (Always-returned _ _ (All-set PointsThere clients i (some ip) known e)) (Always-undefined _)

  module _ (fresh : ℕ → ℕ) (heap : Ip → ℕ → ℕ) where
    copy_client-Keeps :
        (m : Memory) (fd ip : ℕ) (block : List ℕ) (dl i : ℕ) (sends : Bool)
        → All PointsThere m.clients
        → ip ≡ ntoa
        → Always (Keeps m) (copy_client heap m fd ip block dl i sends)
    unfolding copy_client
    copy_client-Keeps m fd ip block dl i sends known h =
        Always-if _ (ltb i m.num_clients) _ _
          (Always-any _ (or_undefined (get_elem? m.clients i)) _ (λ entry.
            Always-any _ (or_undefined entry) _ (λ client.
              Always-any _ (write_at block (1 + 16 * i) (ip_entry heap (m.texts client))) _
                (λ b. Always-returned _ _ (known, h, refl, refl)))))
          (Always-any _ (read_at block 0 dl) _
            (λ bytes. Always-returned _ _ (known, h, refl, refl)))

    pub advance-Keeps :
        (m : Memory) (pc : Pc) (v : Input)
        → m.args_ip ≡ ntoa
        → All PointsThere m.clients
        → HasBuffer pc
        → Always (Keeps m) (advance fresh heap m pc v)
    unfolding advance
    advance-Keeps m starting v e known h = Always-returned _ _ (known, tt, refl, refl)
    advance-Keeps m (got_socket fd) v e known h = Always-returned _ _ (known, e, refl, refl)
    advance-Keeps m (receiving fd ip) v e known h =
        Always-any _ (load (recv_msg v.leftover v.received) 0) _ (λ first.
          Always-returned _ _
            (known, command-HasBuffer fd ip first (recv_msg v.leftover v.received) h, refl, refl))
    advance-Keeps m (testing fd ip lists) v e known h = Always-returned _ _ (
      known,
      if-both HasBuffer (ltb m.num_clients max_clients) _ _ h
          (behind_add-HasBuffer fd ip lists false h),
      refl,
      refl,
    )
    advance-Keeps m (indexing fd ip lists) v e known h =
        Always-bind (All PointsThere) _ (store m.clients m.num_clients (some ip)) _
          (store-known m.clients m.num_clients ip known h)
          (λ clients known'. Always-returned _ _ (known', h, refl, refl))
    advance-Keeps m (loading fd ip lists) v e known h = Always-returned _ _ (known, h, refl, refl)
    advance-Keeps m (storing fd ip lists n) v e known h =
        Always-returned _ _ (known, behind_add-HasBuffer fd ip lists true h, refl, refl)
    advance-Keeps m (answering fd ip added) v e known h =
        Always-any _ (send_msg v.sends fresh (if added then joined_word else failed_word)) _
          (λ r. Always-returned _ _ (known, h, refl, refl))
    advance-Keeps m (listing fd ip) v e known h = Always-returned _ _ (known, h, refl, refl)
    advance-Keeps m (heading fd ip block) v e known h =
        Always-any _ (write_at block 0 ((m.num_clients % 256) ∷ [])) _
          (λ b. Always-returned _ _ (known, h, refl, refl))
    advance-Keeps m (measuring fd ip block) v e known h = Always-returned _ _ (known, h, refl, refl)
    advance-Keeps m (copying fd ip block dl i) v e known h =
        copy_client-Keeps m fd ip block dl i v.sends known h
    advance-Keeps m ended v e known h = Always-returned _ _ (known, tt, refl, refl)
