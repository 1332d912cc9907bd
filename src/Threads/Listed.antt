-- ===== src/Threads/Listed.antt =====
-- A client's "list" to examples/tracker/tracker2.c, from recv to send, while no other thread and not
-- main goes on.
use soft_sys_dubstep_ducks.Prelude.{
  ℕ, zero, suc, ◌+◌, ◌*◌, ◌%◌, ◌<◌, ◌≡◌, refl, ap, sym, ◌∙◌, List, [], ◌∷◌, ◌++◌, true, ok, Option,
  some, arith, get_elem?, set_same, map, replicate, length, length-append, set, take, ltb, ltb→lt,
  All, All-append, All-get, Bool-cases, inl, inr, if◌then◌else◌,
}
use soft_sys_dubstep_ducks.Tracker.Clients.{Ip}
use soft_sys_dubstep_ducks.Tracker.Peers.{list_word}
use soft_sys_dubstep_ducks.Tracker.Reply.Sound.{entries}
use soft_sys_dubstep_ducks.Threads.{max_clients, Memory, receiving, testing, listing, Input}
use soft_sys_dubstep_ducks.Threads.System.{State, turn, initial, run, Reach}
use soft_sys_dubstep_ducks.Threads.Pointers.{PointsThere, HasBuffer, IsAliased}
use soft_sys_dubstep_ducks.Threads.Aliased.{Reach-IsAliased}
use soft_sys_dubstep_ducks.Threads.Filled.{IsFilled, length-some}
use soft_sys_dubstep_ducks.Threads.Latest.{last_ip, Reach-last, initial-IsAliased}
use soft_sys_dubstep_ducks.Threads.Alone.{alone, alone-quiet, run-alone}
use soft_sys_dubstep_ducks.Threads.Commands.{
  asks, added, joined, hears-list, alone-adds, alone-fails,
}
use soft_sys_dubstep_ducks.Threads.Listing.{alone-listing}

-- How many steps "list" takes.
abbrev pub list_steps : Memory → ℕ
list_steps m = if ltb m.num_clients max_clients then m.num_clients + 10 else m.num_clients + 6

-- n entries for the same address, without the last byte of the last one.
abbrev pub same_entries : (Ip → ℕ → ℕ) → ℕ → Ip → List ℕ
same_entries heap n ip = take (16 * n) ((n % 256) ∷ entries heap (replicate n ip))

same_texts :
    (texts : ℕ → Ip) (x : Ip) (ps : List ℕ)
    → All (λ p. texts p ≡ x) ps
    → map texts ps ≡ replicate (length ps) x
same_texts texts x [] h = refl
same_texts texts x (p ∷ ps) (e, h) = rw (e, same_texts texts x ps h) refl

-- What is known of pointers that stand in a table.
point_there :
    (ntoa : ℕ) (texts : ℕ → Ip) (ps : List ℕ) (tail : List (Option ℕ))
    → All (PointsThere ntoa) (map some ps ++ tail)
    → All (λ p. texts p ≡ texts ntoa) ps
point_there ntoa texts [] tail h = tt
point_there ntoa texts (p ∷ ps) tail (e, h) = (ap texts e, point_there ntoa texts ps tail h)

module _ (fresh : ℕ → ℕ) (heap : Ip → ℕ → ℕ) (m : Memory) (fd ip : ℕ) (x : Ip) where
  -- sendClients, of pointers to the same text.
  same-listing :
      (v : Input) (ps : List ℕ) (tail : List (Option ℕ))
      → v.sends ≡ true
      → m.clients ≡ map some ps ++ tail
      → m.num_clients ≡ length ps
      → All (λ p. m.texts p ≡ x) ps
      → alone fresh heap m (listing fd ip) (replicate (m.num_clients + 4) v)
        ≡ ok (m, receiving fd ip, (fd, same_entries heap m.num_clients x) ∷ [])
  same-listing v ps tail sends table count same =
      let steps : m.num_clients + 4 ≡ suc (suc (suc (suc (length ps)))) = omega arith in
      rw
        (
          steps,
          alone-listing fresh heap m fd ip v sends ps tail table count,
          same_texts m.texts x ps same,
          ← count,
        )
        refl

-- addClient stores behind the pointers of the table.
grown :
    (ps : List ℕ) (o : Option ℕ) (ip : ℕ) (tail : List (Option ℕ)) (n : ℕ)
    → n ≡ length ps
    → set (map some ps ++ o ∷ tail) n (some ip) ≡ map some (ps ++ ip ∷ []) ++ tail
grown [] o ip tail zero e = refl
grown [] o ip tail (suc n) e = absurd (omega arith)
grown (p ∷ ps) o ip tail zero e = absurd (omega arith)
grown (p ∷ ps) o ip tail (suc n) e = ap (◌∷◌ (some p)) (grown ps o ip tail n (omega arith))

module _ (fresh : ℕ → ℕ) (heap : Ip → ℕ → ℕ) (m : Memory) (fd ip : ℕ) (x : Ip) where
  -- With room, over what addClient leaves.
  alone-list_room :
      (ps : List ℕ) (unused : List (Option ℕ))
      → m.clients ≡ map some ps ++ unused
      → m.num_clients ≡ length ps
      → length m.clients ≡ max_clients
      → All (λ p. m.texts p ≡ x) ps
      → m.texts ip ≡ x
      → m.num_clients < max_clients
      → alone fresh heap m (receiving fd ip) (replicate (m.num_clients + 10) (asks fresh list_word))
        ≡ ok (added m ip, receiving fd ip, (fd, same_entries heap (m.num_clients + 1) x) ∷ [])
  alone-list_room ps [] table count size same same_ip room =
      let whole : length {A = Option ℕ} (map some ps ++ []) ≡ max_clients =
        ap length (sym table) ∙ size in
      absurd (omega (arith, whole, length-some ps, length-append {A = Option ℕ} (map some ps) []))
  alone-list_room ps (o ∷ unused) table count size same same_ip room =
      let v = asks fresh list_word in
      let more = m.num_clients + 1 + 4 in
      let steps : m.num_clients + 10 ≡ suc (suc (suc (suc (suc more)))) = omega arith in
      let listed =
        same-listing fresh heap (added m ip) fd ip x v (ps ++ ip ∷ []) unused refl
          (rw table (grown ps o ip unused m.num_clients count))
          (omega (arith, length-append ps (ip ∷ [])))
          (All-append (λ p. m.texts p ≡ x) ps (ip ∷ []) same (same_ip, tt)) in
      rw
        (
          steps,
          alone-quiet fresh heap m m (receiving fd ip) (testing fd ip true) v
              (v ∷ v ∷ v ∷ v ∷ replicate more v) (hears-list fresh heap m fd ip),
          alone-adds fresh heap m fd ip true v (replicate more v) room size,
        )
        listed

  alone-list :
      (ps : List ℕ) (unused : List (Option ℕ))
      → m.clients ≡ map some ps ++ unused
      → m.num_clients ≡ length ps
      → length m.clients ≡ max_clients
      → All (λ p. m.texts p ≡ x) ps
      → m.texts ip ≡ x
      → alone fresh heap m (receiving fd ip) (replicate (list_steps m) (asks fresh list_word))
        ≡ ok
            (joined m ip, receiving fd ip, (fd, same_entries heap (joined m ip).num_clients x) ∷ [])
  alone-list ps unused table count size same same_ip =
      elim (Bool-cases (ltb m.num_clients max_clients)) [
        | inl room ↦ rw room (
            alone-list_room ps unused table count size same same_ip
              (ltb→lt m.num_clients max_clients room))
        | inr full ↦
            (let v = asks fresh list_word in
              let steps : m.num_clients + 6 ≡ suc (suc (m.num_clients + 4)) = omega arith in
              rw
                (
                  full,
                  steps,
                  alone-quiet fresh heap m m (receiving fd ip) (testing fd ip true) v
                      (v ∷ replicate (m.num_clients + 4) v) (hears-list fresh heap m fd ip),
                  alone-fails fresh heap m fd ip true v (replicate (m.num_clients + 4) v) full,
                )
                (same-listing fresh heap m fd ip x v ps unused refl table count same))
      ]

pub aliased-list :
    (fresh : ℕ → ℕ) (heap : Ip → ℕ → ℕ) (ntoa : ℕ) (t : State) (k fd ip : ℕ)
    → IsAliased ntoa t
    → IsFilled t.memory
    → get_elem? t.threads k ≡ some (receiving fd ip)
    → run fresh heap ntoa t (map (turn k) (replicate (list_steps t.memory) (asks fresh list_word)))
      ≡ ok (
        record t { memory = joined t.memory ip },
        (fd, same_entries heap (joined t.memory ip).num_clients (t.memory.texts ntoa)) ∷ [],
      )
aliased-list fresh heap ntoa t k fd ip inv filled at_k =
    let there = All-get (HasBuffer ntoa) t.threads k (receiving fd ip) inv.handlers at_k in
    let listed =
      alone-list fresh heap t.memory fd ip (t.memory.texts ntoa) filled.pointers filled.unused
        filled.table filled.count filled.size
        (point_there ntoa t.memory.texts filled.pointers filled.unused
          (rw filled.table at inv.known))
        (ap t.memory.texts there) in
    rw
      (
        run-alone fresh heap ntoa t k (receiving fd ip)
            (replicate (list_steps t.memory) (asks fresh list_word)) at_k,
        listed,
        set_same t.threads k (receiving fd ip) at_k,
      )
      refl

-- A client's "list" in a state that has been reached and whose table is in order, when nothing else
-- goes on: the client is added to the table while there is room, as with "join". The reply is the number n
-- of the clients in a byte, and n entries of which each is the address of the connection that was accepted
-- last, whoever has joined; but only 16 * n of these 1 + 16 * n bytes are sent, so the last one is missing.
-- The thread waits for the next message then.
pub serial_list :
    (fresh : ℕ → ℕ) (heap : Ip → ℕ → ℕ) (ntoa : ℕ) {fd₀ p₀ : ℕ} {texts : ℕ → Ip} {t : State}
    (reached : Reach fresh heap ntoa (initial fd₀ p₀ texts) t) (k fd ip : ℕ)
    → IsFilled t.memory
    → get_elem? t.threads k ≡ some (receiving fd ip)
    → run fresh heap ntoa t (map (turn k) (replicate (list_steps t.memory) (asks fresh list_word)))
      ≡ ok (
        record t { memory = joined t.memory ip },
        (fd, same_entries heap (joined t.memory ip).num_clients (last_ip reached)) ∷ [],
      )
serial_list fresh heap ntoa {t} reached k fd ip filled at_k =
    let start = initial-IsAliased ntoa _ _ _ in
    let inv = Reach-IsAliased ntoa fresh heap reached start in
    rw (← Reach-last fresh heap ntoa reached start)
      (aliased-list fresh heap ntoa t k fd ip inv filled at_k)
