-- ===== src/Threads/Listing.antt =====
-- The reply of sendClients in examples/tracker/tracker2.c, while no other thread and not main goes on.
use soft_sys_dubstep_ducks.Prelude.{
  ℕ, get_elem?, suc, ◌+◌, ◌*◌, ◌%◌, ◌≤◌, ◌<◌, ◌≡◌, refl, sym, List, [], ◌∷◌, ◌++◌, true, false, ok,
  none, some, Option, arith, get_elem?-append_at, map, replicate, length, length-append,
  length-drop, length-malloc, drop, take, malloc, read_at, write_at-append, ltb, le→leb, lt→ltb,
  append_assoc,
}
use soft_sys_dubstep_ducks.Tracker.Clients.{Ip}
use soft_sys_dubstep_ducks.Tracker.Message.{send_data}
use soft_sys_dubstep_ducks.Tracker.Reply.{ip_entry}
use soft_sys_dubstep_ducks.Tracker.Reply.Sound.{entries, length-ip_entry}
use soft_sys_dubstep_ducks.Threads.{
  Memory, receiving, listing, heading, measuring, copying, Input, copy_client, advance,
}
use soft_sys_dubstep_ducks.Threads.Alone.{alone, alone-quiet}

module _ (fresh : ℕ → ℕ) (heap : Ip → ℕ → ℕ) (m : Memory) (fd ip : ℕ) (v : Input) where
  -- One client is copied.
  pub copies :
      (p i : ℕ) (done rest : List ℕ) (dl : ℕ)
      → get_elem? m.clients i ≡ some (some p)
      → i < m.num_clients
      → length done ≡ 1 + 16 * i
      → 16 ≤ length rest
      → advance fresh heap m (copying fd ip (done ++ rest) dl i) v
        ≡ ok (
          m,
          copying fd ip
              (done
                ++ (ip_entry heap (m.texts p) ++ drop (length (ip_entry heap (m.texts p))) rest))
              dl
              (i + 1),
          none,
        )
  unfolding advance copy_client
  copies p i done rest dl at_p more size room =
      rw
        (
          lt→ltb i m.num_clients more,
          at_p,
          write_at-append done (ip_entry heap (m.texts p)) rest (1 + 16 * i) (sym size)
              (omega (arith, length-ip_entry heap (m.texts p))),
        )
        refl

  -- The count is written.
  pub heads :
      (block : List ℕ)
      → 1 ≤ length block
      → advance fresh heap m (heading fd ip block) v
        ≡ ok (m, measuring fd ip ((m.num_clients % 256) ∷ drop 1 block), none)
  heads block room =
      unfold advance in rw (write_at-append [] ((m.num_clients % 256) ∷ []) block 0 refl room) refl

module _ (fresh : ℕ → ℕ) (heap : Ip → ℕ → ℕ) (m : Memory) (fd ip : ℕ) (v : Input)
    (sends : v.sends ≡ true) where
  -- dl bytes are sent.
  alone-sends :
      (block : List ℕ) (dl i : ℕ)
      → m.num_clients ≡ i
      → dl ≤ length block
      → alone fresh heap m (copying fd ip block dl i) (v ∷ [])
        ≡ ok (m, receiving fd ip, (fd, take dl block) ∷ [])
  unfolding alone advance copy_client read_at send_data
  alone-sends block dl i count fits =
      let over : ltb i m.num_clients ≡ false = ground arith in
      rw (over, le→leb (0 + dl) (length block) (omega arith), sends) refl

  -- One client after the other is copied, and dl bytes are sent.
  alone-copies :
      (front : List (Option ℕ)) (ps : List ℕ) (tail : List (Option ℕ)) (done rest : List ℕ)
      (dl i : ℕ)
      → m.clients ≡ front ++ (map some ps ++ tail)
      → i ≡ length front
      → m.num_clients ≡ i + length ps
      → length done ≡ 1 + 16 * i
      → length rest ≡ 16 * length ps
      → dl ≤ length done + length rest
      → alone fresh heap m (copying fd ip (done ++ rest) dl i) (replicate (suc (length ps)) v)
        ≡ ok (m, receiving fd ip, (fd, take dl (done ++ entries heap (map m.texts ps))) ∷ [])
  unfolding entries
  alone-copies front [] tail done [] dl i table at_i count size room fits =
      alone-sends (done ++ []) dl i (omega arith) (omega (arith, length-append done []))
  alone-copies front [] tail done (b ∷ rest) dl i table at_i count size room fits =
      absurd (omega arith)
  alone-copies front (p ∷ ps) tail done rest dl i table at_i count size room fits =
      let entry = ip_entry heap (m.texts p) in
      let at_p : get_elem? m.clients i ≡ some (some p) =
        rw table (get_elem?-append_at front (map some ps ++ tail) i (some p) at_i) in
      let ih =
        alone-copies (front ++ some p ∷ []) ps tail (done ++ entry) (drop (length entry) rest) dl
          (i + 1) (rw (append_assoc front (some p ∷ []) (map some ps ++ tail)) table)
          (omega (arith, length-append front (some p ∷ []))) (omega arith)
          (omega (arith, length-append done entry, length-ip_entry heap (m.texts p)))
          (omega (arith, length-drop (length entry) rest, length-ip_entry heap (m.texts p)))
          (omega (
            arith,
            length-append done entry,
            length-drop (length entry) rest,
            length-ip_entry heap (m.texts p),
          )) in
      rw
        (alone-quiet fresh heap m m (copying fd ip (done ++ rest) dl i) _ v
          (replicate (suc (length ps)) v)
          (copies fresh heap m fd ip v p i done rest dl at_p (omega arith) size (omega arith)))
        (simp append_assoc at ih)

  -- The whole of sendClients: the number of clients and their entries, without the last byte.
  pub alone-listing :
      (ps : List ℕ) (tail : List (Option ℕ))
      → m.clients ≡ map some ps ++ tail
      → m.num_clients ≡ length ps
      → alone fresh heap m (listing fd ip) (v ∷ v ∷ v ∷ replicate (suc (length ps)) v)
        ≡ ok (
          m,
          receiving fd ip,
          (fd, take (16 * m.num_clients) ((m.num_clients % 256) ∷ entries heap (map m.texts ps)))
              ∷ [],
        )
  alone-listing ps tail table count =
      let block = malloc fresh (1 + 16 * m.num_clients) in
      let head : List ℕ = (m.num_clients % 256) ∷ [] in
      let size = length-malloc fresh (1 + 16 * m.num_clients) in
      let inputs = replicate (suc (length ps)) v in
      rw
        (
          alone-quiet fresh heap m m (listing fd ip) (heading fd ip block) v (v ∷ v ∷ inputs)
              (unfold advance in refl),
          alone-quiet fresh heap m m (heading fd ip block) (measuring fd ip (head ++ drop 1 block))
              v (v ∷ inputs) (heads fresh heap m fd ip v block (omega arith)),
          alone-quiet fresh heap m m (measuring fd ip (head ++ drop 1 block))
              (copying fd ip (head ++ drop 1 block) (16 * m.num_clients) 0) v inputs
              (unfold advance in refl),
        )
        (alone-copies [] ps tail head (drop 1 block) (16 * m.num_clients) 0 table refl (omega arith)
          refl (omega (arith, length-drop 1 block)) (omega (arith, length-drop 1 block)))
