-- ===== src/Threads/Orders.antt =====
-- What a step of a thread of examples/tracker/tracker2.c keeps of a table that is filled from its
-- beginning.
use soft_sys_dubstep_ducks.Prelude.{
  ℕ, zero, suc, ap, ◌∙◌, ◌+◌, ◌*◌, ◌<◌, ◌≡◌, ◌%◌, refl, List, [], ◌∷◌, ◌++◌, Bool, true, false, ok,
  Option, some, some-eq, arith, Always, Always-any, Always-if, Always-returned, load, get_elem?,
  get_elem?-set_self, set, length-set, map, length, length-append, ltb, lt→ltb, ltb→lt,
  or_undefined, write_at, read_at, if-both, if◌then◌else◌, ◌==◌, Bool-cases, inl, inr,
}
use soft_sys_dubstep_ducks.Tracker.Clients.{Ip}
use soft_sys_dubstep_ducks.Tracker.Message.{send_msg, recv_msg, has_word}
use soft_sys_dubstep_ducks.Tracker.Reply.{ip_entry}
use soft_sys_dubstep_ducks.Tracker.Peers.{list_word, join_word, joined_word}
use soft_sys_dubstep_ducks.Torrent.Connecting.{store}
use soft_sys_dubstep_ducks.Threads.{
  max_clients, failed_word, Memory, Pc, starting, got_socket, receiving, testing, indexing, loading,
  storing, answering, listing, heading, measuring, copying, ended, Input, command, behind_add,
  Stepped, copy_client, advance,
}
use soft_sys_dubstep_ducks.Threads.Filled.{IsFilled, adds, IsStored, Ready}

-- A pointer that stands behind others is the next entry.
pub behind :
    (ps : List ℕ) (unused : List (Option ℕ)) (n p : ℕ)
    → n ≡ length ps
    → get_elem? (map some ps ++ unused) n ≡ some (some p)
    → (rest : List (Option ℕ)) × (map some ps ++ unused ≡ map some (ps ++ p ∷ []) ++ rest)
behind [] [] n p e at_n = absurd (cc)
behind [] (u ∷ unused) zero p e at_n = (unused, ap (λ o. o ∷ unused) (some-eq at_n))
behind [] (u ∷ unused) (suc n) p e at_n = absurd (omega arith)
behind (q ∷ ps) unused zero p e at_n = absurd (omega arith)
behind (q ∷ ps) unused (suc n) p e at_n =
    let b = behind ps unused n p (omega arith) at_n in (b.0, ap (◌∷◌ (some q)) b.1)

-- An entry that is not yet counted does not matter.
pub stored_unused :
    (ps : List ℕ) (unused : List (Option ℕ)) (n : ℕ) (o : Option ℕ)
    → n ≡ length ps
    → (rest : List (Option ℕ)) × (set (map some ps ++ unused) n o ≡ map some ps ++ rest)
stored_unused [] unused n o e = (set unused n o, refl)
stored_unused (q ∷ ps) unused zero o e = absurd (omega arith)
stored_unused (q ∷ ps) unused (suc n) o e =
    let b = stored_unused ps unused n o (omega arith) in (b.0, ap (◌∷◌ (some q)) b.1)

-- What a step of a thread keeps: a filled table, and all of it unless the thread is inside of
-- addClient.
abbrev pub Orders : Memory → Bool → Stepped → Type 0
Orders m inside r =
    IsFilled r.0
    × Ready r.0 r.1
    × (inside ≡ false → (r.0.num_clients ≡ m.num_clients) × (r.0.clients ≡ m.clients))

unmoved :
    (m : Memory) (inside : Bool) (pc' : Pc) (sent : Option (ℕ × List ℕ))
    → IsFilled m
    → Ready m pc'
    → Always (Orders m inside) (ok (m, pc', sent))
unmoved m inside pc' sent filled ready = Always-returned _ _ (filled, ready, λ e. (refl, refl))

Ready-behind_add :
    (m : Memory) (fd ip : ℕ) (lists added : Bool) → Ready m (behind_add fd ip lists added)
Ready-behind_add m fd ip true added = tt
Ready-behind_add m fd ip false added = tt

Ready-command : (m : Memory) (fd ip first : ℕ) (msg : List ℕ) → Ready m (command fd ip first msg)
unfolding command
Ready-command m fd ip first msg = if-both (Ready m) (first == 0) _ _ tt (
    if-both (Ready m) (has_word msg join_word) _ _ tt
      (if-both (Ready m) (has_word msg list_word) _ _ tt tt))

module _ (fresh : ℕ → ℕ) (heap : Ip → ℕ → ℕ) where
  copy_client-Orders :
      (m : Memory) (inside : Bool) (fd ip : ℕ) (block : List ℕ) (dl i : ℕ) (sends : Bool)
      → IsFilled m
      → Always (Orders m inside) (copy_client heap m fd ip block dl i sends)
  unfolding copy_client
  copy_client-Orders m inside fd ip block dl i sends filled =
      Always-if _ (ltb i m.num_clients) _ _
        (Always-any _ (or_undefined (get_elem? m.clients i)) _ (λ entry.
          Always-any _ (or_undefined entry) _ (λ client.
            Always-any _ (write_at block (1 + 16 * i) (ip_entry heap (m.texts client))) _
              (λ b. unmoved m inside _ _ filled tt))))
        (Always-any _ (read_at block 0 dl) _ (λ bytes. unmoved m inside _ _ filled tt))

  indexing-Orders :
      (m : Memory) (fd ip : ℕ) (lists : Bool) (v : Input)
      → IsFilled m
      → m.num_clients < max_clients
      → Always (Orders m true) (advance fresh heap m (indexing fd ip lists) v)
  unfolding advance store
  indexing-Orders m fd ip lists v filled room =
      let inside : m.num_clients < length m.clients = rw filled.size room in
      let rest = stored_unused filled.pointers filled.unused m.num_clients (some ip) filled.count in
      rw (lt→ltb m.num_clients (length m.clients) inside) (
        Always-returned _ _ (
          record {
            pointers = filled.pointers;
            unused = rest.0;
            table = rw filled.table rest.1;
            count = filled.count;
            size = length-set m.clients m.num_clients (some ip) ∙ filled.size;
          },
          (room, ip, get_elem?-set_self m.clients m.num_clients (some ip) inside),
          λ e. absurd (cc),
        ))

  storing-Orders :
      (m : Memory) (fd ip : ℕ) (lists : Bool) (n : ℕ) (v : Input)
      → IsFilled m
      → n ≡ m.num_clients
      → IsStored m.num_clients m.clients
      → Always (Orders m true) (advance fresh heap m (storing fd ip lists n) v)
  unfolding advance
  storing-Orders m fd ip lists n v filled e stored =
      let rest =
        behind filled.pointers filled.unused m.num_clients stored.1 filled.count
          (rw filled.table at stored.2) in
      Always-returned _ _ (
        record {
          pointers = filled.pointers ++ stored.1 ∷ [];
          unused = rest.0;
          table = filled.table ∙ rest.1;
          count = omega (arith, filled.count, length-append filled.pointers (stored.1 ∷ []));
          size = filled.size;
        },
        Ready-behind_add (record m { num_clients = n + 1 }) fd ip lists true,
        λ e'. absurd (cc),
      )

  pub advance-Orders :
      (m : Memory) (pc : Pc) (v : Input)
      → IsFilled m
      → Ready m pc
      → Always (Orders m (adds pc)) (advance fresh heap m pc v)
  unfolding advance
  advance-Orders m starting v filled ready = unmoved m _ _ _ filled tt
  advance-Orders m (got_socket fd) v filled ready = unmoved m _ _ _ filled tt
  advance-Orders m (receiving fd ip) v filled ready =
      Always-any _ (load (recv_msg v.leftover v.received) 0) _ (λ first.
        unmoved m _ _ _ filled (Ready-command m fd ip first (recv_msg v.leftover v.received)))
  advance-Orders m (testing fd ip lists) v filled ready =
      elim (Bool-cases (ltb m.num_clients max_clients)) [
        | inl room ↦ rw room (unmoved m _ _ _ filled (ltb→lt m.num_clients max_clients room))
        | inr full ↦ rw full (unmoved m _ _ _ filled (Ready-behind_add m fd ip lists false))
      ]
  advance-Orders m (indexing fd ip lists) v filled ready =
      indexing-Orders m fd ip lists v filled ready
  advance-Orders m (loading fd ip lists) v filled ready = unmoved m _ _ _ filled (refl, ready)
  advance-Orders m (storing fd ip lists n) v filled ready =
      storing-Orders m fd ip lists n v filled ready.0 ready.1
  advance-Orders m (answering fd ip added) v filled ready =
      Always-any _ (send_msg v.sends fresh (if added then joined_word else failed_word)) _
        (λ r. unmoved m _ _ _ filled tt)
  advance-Orders m (listing fd ip) v filled ready = unmoved m _ _ _ filled tt
  advance-Orders m (heading fd ip block) v filled ready =
      Always-any _ (write_at block 0 ((m.num_clients % 256) ∷ [])) _
        (λ b. unmoved m _ _ _ filled tt)
  advance-Orders m (measuring fd ip block) v filled ready = unmoved m _ _ _ filled tt
  advance-Orders m (copying fd ip block dl i) v filled ready =
      copy_client-Orders m _ fd ip block dl i v.sends filled
  advance-Orders m ended v filled ready = unmoved m _ _ _ filled tt
