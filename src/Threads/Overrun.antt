-- ===== src/Threads/Overrun.antt =====
-- A reply of examples/tracker/tracker2.c during which another client joins.
use soft_sys_dubstep_ducks.Prelude.{
  ℕ, suc, ◌+◌, ◌*◌, ◌<◌, ◌≡◌, ◌≢◌, refl, sym, ◌%◌, List, [], ◌∷◌, ◌++◌, Bool, true, ok, undefined,
  Option, none, some, arith, get_elem?, get_elem?-append_at, map, replicate, length, length-append,
  length-drop, length-malloc, drop, malloc, write_at_overflow, lt→ltb, append_assoc,
}
use soft_sys_dubstep_ducks.Tracker.Clients.{Ip}
use soft_sys_dubstep_ducks.Tracker.Reply.{ip_entry}
use soft_sys_dubstep_ducks.Tracker.Reply.Sound.{length-ip_entry}
use soft_sys_dubstep_ducks.Threads.{
  Memory, storing, listing, heading, measuring, copying, Input, behind_add, copy_client, advance,
}
use soft_sys_dubstep_ducks.Threads.System.{State, turn, run}
use soft_sys_dubstep_ducks.Threads.Alone.{alone, alone-quiet, run-alone}
use soft_sys_dubstep_ducks.Threads.Listing.{copies, heads}
use soft_sys_dubstep_ducks.Threads.Races.{moved, run-quiet, at_self, at_other, counts}

module _ (fresh : ℕ → ℕ) (heap : Ip → ℕ → ℕ) (m : Memory) (fd ip : ℕ) (v : Input) where
  -- One client more than there is room for is not copied.
  copies_over :
      (p i : ℕ) (block : List ℕ) (dl : ℕ)
      → get_elem? m.clients i ≡ some (some p)
      → i < m.num_clients
      → length block < 1 + 16 * i + 16
      → advance fresh heap m (copying fd ip block dl i) v ≡ undefined
  unfolding advance copy_client
  copies_over p i block dl at_p more small =
      rw
        (
          lt→ltb i m.num_clients more,
          at_p,
          write_at_overflow block (ip_entry heap (m.texts p)) (1 + 16 * i)
              (omega (arith, length-ip_entry heap (m.texts p))),
        )
        refl

  -- The clients for which there is room are copied, and then one more.
  alone-overrun :
      (front : List (Option ℕ)) (ps : List ℕ) (p : ℕ) (tail : List (Option ℕ)) (done rest : List ℕ)
      (dl i : ℕ)
      → m.clients ≡ front ++ (map some ps ++ some p ∷ tail)
      → i ≡ length front
      → m.num_clients ≡ i + length ps + 1
      → length done ≡ 1 + 16 * i
      → length rest ≡ 16 * length ps
      → alone fresh heap m (copying fd ip (done ++ rest) dl i) (replicate (suc (length ps)) v)
        ≡ undefined
  unfolding alone
  alone-overrun front [] p tail done rest dl i table at_i count size room =
      let at_p : get_elem? m.clients i ≡ some (some p) =
        rw table (get_elem?-append_at front tail i (some p) at_i) in
      rw
        (copies_over p i (done ++ rest) dl at_p (omega arith)
          (omega (arith, length-append done rest)))
        refl
  alone-overrun front (q ∷ ps) p tail done rest dl i table at_i count size room =
      let entry = ip_entry heap (m.texts q) in
      let at_q : get_elem? m.clients i ≡ some (some q) =
        rw table (get_elem?-append_at front (map some ps ++ some p ∷ tail) i (some q) at_i) in
      let ih =
        alone-overrun (front ++ some q ∷ []) ps p tail (done ++ entry) (drop (length entry) rest) dl
          (i + 1) (rw (append_assoc front (some q ∷ []) (map some ps ++ some p ∷ tail)) table)
          (omega (arith, length-append front (some q ∷ []))) (omega arith)
          (omega (arith, length-append done entry, length-ip_entry heap (m.texts q)))
          (omega (arith, length-drop (length entry) rest, length-ip_entry heap (m.texts q))) in
      rw
        (alone-quiet fresh heap m m (copying fd ip (done ++ rest) dl i) _ v
          (replicate (suc (length ps)) v)
          (copies fresh heap m fd ip v q i done rest dl at_q (omega arith) size (omega arith)))
        (simp append_assoc at ih)

  lists :
      advance fresh heap m (listing fd ip) v
      ≡ ok (m, heading fd ip (malloc fresh (1 + 16 * m.num_clients)), none)
  unfolding advance
  lists = refl

  measures :
      (block : List ℕ)
      → advance fresh heap m (measuring fd ip block) v
        ≡ ok (m, copying fd ip block (16 * m.num_clients) 0, none)
  unfolding advance
  measures block = refl

-- A thread that is counted as a client after another has taken the block for its reply: the other copies
-- one address more than the block has room for.
pub race_overrun :
    (fresh : ℕ → ℕ) (heap : Ip → ℕ → ℕ) (ntoa : ℕ) (s : State) (i j fd fd' ip ip' p : ℕ)
    (is_list : Bool) (v : Input) (ps : List ℕ) (tail : List (Option ℕ))
    → i ≢ j
    → get_elem? s.threads i ≡ some (listing fd ip)
    → get_elem? s.threads j ≡ some (storing fd' ip' is_list s.memory.num_clients)
    → s.memory.clients ≡ map some ps ++ some p ∷ tail
    → s.memory.num_clients ≡ length ps
    → run fresh heap ntoa s
        (turn i v ∷ turn j v ∷ turn i v ∷ turn i v ∷ map (turn i) (replicate (suc (length ps)) v))
      ≡ undefined
race_overrun fresh heap ntoa s i j fd fd' ip ip' p is_list v ps tail ne at_i at_j table count =
    let m = s.memory in
    let m' : Memory = record m { num_clients = m.num_clients + 1 } in
    let block = malloc fresh (1 + 16 * m.num_clients) in
    let head : List ℕ = (m'.num_clients % 256) ∷ [] in
    let size = length-malloc fresh (1 + 16 * m.num_clients) in
    let copying' = copying fd ip (head ++ drop 1 block) (16 * m'.num_clients) 0 in
    let s1 = moved fresh heap ntoa s i m (heading fd ip block) in
    let s2 = moved fresh heap ntoa s1 j m' (behind_add fd' ip' is_list true) in
    let s3 = moved fresh heap ntoa s2 i m' (measuring fd ip (head ++ drop 1 block)) in
    let s4 = moved fresh heap ntoa s3 i m' copying' in
    let j1 = at_other fresh heap ntoa s.threads i j _ (heading fd ip block) ne at_j in
    let i1 = at_self fresh heap ntoa s.threads i _ (heading fd ip block) at_i in
    let i2 =
      at_other fresh heap ntoa s1.threads j i _ (behind_add fd' ip' is_list true) (λ e. ne (sym e))
        i1 in
    let i3 = at_self fresh heap ntoa s2.threads i _ (measuring fd ip (head ++ drop 1 block)) i2 in
    let i4 = at_self fresh heap ntoa s3.threads i _ copying' i3 in
    rw
      (
        run-quiet fresh heap ntoa s i (listing fd ip) (heading fd ip block) m v _ at_i
            (lists fresh heap m fd ip v),
        run-quiet fresh heap ntoa s1 j (storing fd' ip' is_list m.num_clients)
            (behind_add fd' ip' is_list true) m' v _ j1
            (counts fresh heap ntoa m fd' ip' is_list m.num_clients v),
        run-quiet fresh heap ntoa s2 i (heading fd ip block)
            (measuring fd ip (head ++ drop 1 block)) m' v _ i2
            (heads fresh heap m' fd ip v block (omega arith)),
        run-quiet fresh heap ntoa s3 i (measuring fd ip (head ++ drop 1 block)) copying' m' v _ i3
            (measures fresh heap m' fd ip v (head ++ drop 1 block)),
        run-alone fresh heap ntoa s4 i copying' (replicate (suc (length ps)) v) i4,
        alone-overrun fresh heap m' fd ip v [] ps p tail head (drop 1 block) (16 * m'.num_clients) 0
            table refl (omega arith) refl (omega (arith, length-drop 1 block)),
      )
      refl
