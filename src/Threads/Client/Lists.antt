-- ===== src/Threads/Client/Lists.antt =====
-- The peers that the client of examples/tracker/client.c takes from a reply of tracker2.c.
use soft_sys_dubstep_ducks.Prelude.{
  ℕ, zero, suc, ap, sym, ◌+◌, ◌*◌, ◌%◌, ◌<◌, ◌≤◌, ◌≡◌, refl, List, [], ◌∷◌, ◌++◌, ok, some, arith,
  All, All-append, take, drop, length, length-append, length-take, length-replicate, replicate,
  malloc, malloc_from, read_at-append, append_assoc, append-nil,
}
use soft_sys_dubstep_ducks.Tracker.Clients.{Ip}
use soft_sys_dubstep_ducks.Tracker.Message.{bufsiz, recv_msg, recv_msg-append}
use soft_sys_dubstep_ducks.Tracker.Reply.{ip_entry}
use soft_sys_dubstep_ducks.Tracker.Reply.Sound.{entries, length-ip_entry}
use soft_sys_dubstep_ducks.Threads.{max_clients}
use soft_sys_dubstep_ducks.Threads.Listed.{same_entries}
use soft_sys_dubstep_ducks.Threads.Client.{copy_entries}

abbrev pub flat : List (List ℕ) → List ℕ
flat [] = []
flat (b ∷ blocks) = b ++ flat blocks

pub copy_entries-flat :
    (done rest : List ℕ) (blocks : List (List ℕ)) (i : ℕ)
    → length done ≡ 1 + 16 * i
    → All (λ b. length b ≡ 16) blocks
    → copy_entries (length blocks) i (done ++ (flat blocks ++ rest)) ≡ ok blocks
unfolding copy_entries
copy_entries-flat done rest [] i size h = refl
copy_entries-flat done rest (b ∷ blocks) i size h =
    let ih =
      copy_entries-flat (done ++ b) rest blocks (i + 1) (omega (arith, length-append done b, h.0))
        h.1 in
    let read = read_at-append done b (flat blocks ++ rest) (1 + 16 * i) 16 (sym size) (sym h.0) in
    rw (append_assoc b (flat blocks) rest, read, ← append_assoc done b (flat blocks ++ rest), ih)
      refl

-- What follows the first n bytes of a block of N.
drop-malloc_from :
    (fresh : ℕ → ℕ) (i n N : ℕ)
    → n < N
    → (rest : List ℕ) × (drop n (malloc_from fresh i N) ≡ fresh (i + n) ∷ rest)
unfolding malloc_from
drop-malloc_from fresh i n zero h = absurd (omega arith)
drop-malloc_from fresh i zero (suc N) h =
    let e : i ≡ i + 0 = omega arith in
    (malloc_from fresh (i + 1) N, ap (λ k. fresh k ∷ malloc_from fresh (i + 1) N) e)
drop-malloc_from fresh i (suc n) (suc N) h =
    let d = drop-malloc_from fresh (i + 1) n N (omega arith) in
    let e : i + 1 + n ≡ i + suc n = omega arith in (d.0, rw (← e) d.1)

drop-malloc :
    (fresh : ℕ → ℕ) (n N : ℕ) → n < N → (rest : List ℕ) × (drop n (malloc fresh N) ≡ fresh n ∷ rest)
unfolding malloc
drop-malloc fresh n N h =
    let d = drop-malloc_from fresh 0 n N h in let e : 0 + n ≡ n = omega arith in (d.0, rw e at d.1)

take_beyond : (xs ys : List ℕ) (n k : ℕ) → n ≡ length xs + k → take n (xs ++ ys) ≡ xs ++ take k ys
take_beyond [] ys n k e = ap (λ j. take j ys) (omega arith)
take_beyond (x ∷ xs) ys zero k e = absurd (omega arith)
take_beyond (x ∷ xs) ys (suc n) k e = ap (◌∷◌ x) (take_beyond xs ys n k (omega arith))

module _ (heap : Ip → ℕ → ℕ) (x : Ip) where
  abbrev pub entry : List ℕ
  entry = ip_entry heap x

  -- The entries without their last byte.
  cut :
      (k n : ℕ)
      → n ≡ 15 + 16 * k
      → take n (entries heap (replicate (suc k) x)) ≡ flat (replicate k entry) ++ take 15 entry
  unfolding entries
  cut zero n e = rw (e, append-nil entry) refl
  cut (suc k) n e =
      let more = entries heap (replicate (suc k) x) in
      let beyond =
        take_beyond entry more n (15 + 16 * k) (omega (arith, e, length-ip_entry heap x)) in
      rw (beyond, cut k (15 + 16 * k) refl)
        (sym (append_assoc entry (flat (replicate k entry)) (take 15 entry)))

  All-whole : (k : ℕ) → All (λ b. length b ≡ 16) (replicate k entry)
  All-whole zero = tt
  All-whole (suc k) = (length-ip_entry heap x, All-whole k)

  flat-append : (bs : List (List ℕ)) (b : List ℕ) → flat (bs ++ b ∷ []) ≡ flat bs ++ b
  flat-append [] b = append-nil b
  flat-append (c ∷ bs) b = rw (flat-append bs b) (sym (append_assoc c (flat bs) b))

  -- The last entry that the client takes: its last byte is one of the receive buffer.
  abbrev pub last_entry : (ℕ → ℕ) → ℕ → List ℕ
  last_entry fresh n = take 15 entry ++ fresh (16 * n) ∷ []

  pub All-entries :
      (fresh : ℕ → ℕ) (k n : ℕ)
      → All (λ b. length b ≡ 16) (replicate k entry ++ last_entry fresh n ∷ [])
  All-entries fresh k n =
      All-append (λ b. length b ≡ 16) (replicate k entry) (last_entry fresh n ∷ []) (All-whole k)
        (
          omega (
            arith,
            length-append (take 15 entry) (fresh (16 * n) ∷ []),
            length-take 15 entry,
            length-ip_entry heap x,
          ),
          tt,
        )

  reply_cut :
      (k : ℕ)
      → same_entries heap (suc k) x ≡ (suc k % 256) ∷ (flat (replicate k entry) ++ take 15 entry)
  reply_cut k =
      let e : 16 * suc k ≡ suc (15 + 16 * k) = omega arith in rw (e, cut k (15 + 16 * k) refl) refl

  length-flat :
      (blocks : List (List ℕ))
      → All (λ b. length b ≡ 16) blocks
      → length (flat blocks) ≡ 16 * length blocks
  length-flat [] h = refl
  length-flat (b ∷ blocks) h =
      omega (arith, length-append b (flat blocks), h.0, length-flat blocks h.1)

  length-reply_cut :
      (k : ℕ) → length ((suc k % 256) ∷ (flat (replicate k entry) ++ take 15 entry)) ≡ 16 * suc k
  length-reply_cut k = omega (
    arith,
    length-append (flat (replicate k entry)) (take 15 entry),
    length-flat (replicate k entry) (All-whole k),
    length-replicate k entry,
    length-take 15 entry,
    length-ip_entry heap x,
  )

  -- The receive buffer: the count, the entries that are taken, and the rest of the block.
  pub buffer :
      (fresh : ℕ → ℕ) (k : ℕ)
      → suc k ≤ max_clients
      → (rest : List ℕ) × (recv_msg fresh (some (same_entries heap (suc k) x))
          ≡ (suc k % 256) ∷ (flat (replicate k entry ++ last_entry fresh (suc k) ∷ []) ++ rest))
  buffer fresh k few =
      let reply = (suc k % 256) ∷ (flat (replicate k entry) ++ take 15 entry) in
      let d = drop-malloc fresh (16 * suc k) bufsiz (omega arith) in
      (
        d.0,
        rw
            (
              reply_cut k,
              recv_msg-append fresh reply (omega (arith, length-reply_cut k)),
              length-reply_cut k,
              d.1,
              flat-append (replicate k entry) (last_entry fresh (suc k)),
            )
            (simp append_assoc refl),
      )
