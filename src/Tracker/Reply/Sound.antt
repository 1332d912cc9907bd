-- ===== src/Tracker/Reply/Sound.antt =====
-- The reply of sendClients (src/tracker.c) and the room in its block.
use soft_sys_dubstep_ducks.Prelude.{
  ℕ, suc, ◌+◌, ◌-◌, ◌*◌, ◌%◌, ◌≤◌, ◌<◌, ◌≡◌, refl, ap, sym, subst, ◌≢◌, drop_all, List, [], ◌∷◌,
  ◌++◌, true, false, ok, undefined, none, some, length, drop, drop-drop, dec_lt, malloc,
  write_at-append, write_at_overflow, bytes_eq, ◌==◌, ==_refl, ==_ne, arith, length-append,
  length-drop, length-take, length-malloc, Bool-cases, inl, inr, append_assoc, append-nil,
}
use soft_sys_dubstep_ducks.Tracker.Clients.{Ip, ClientList, contains, distinct, without}
use soft_sys_dubstep_ducks.Tracker.Clients.Absent.{count_nodes_lem, length-without, without_absent}
use soft_sys_dubstep_ducks.Tracker.Reply.{ip_size, ip_entry, copy_ips, send_clients}

-- The addresses of a list, one entry after the other.
unfoldable pub entries : (Ip → ℕ → ℕ) → ClientList → List ℕ
entries heap [] = []
entries heap (c ∷ rest) = ip_entry heap c ++ entries heap rest

pub length-ip_entry : (heap : Ip → ℕ → ℕ) (ip : Ip) → length (ip_entry heap ip) ≡ ip_size
unfolding ip_entry
length-ip_entry heap ip = omega (
  arith,
  length-take ip_size (ip ++ 0 ∷ malloc (heap ip) ip_size),
  length-append ip (0 ∷ malloc (heap ip) ip_size),
  length-malloc (heap ip) ip_size,
)

pub length-entries :
    (heap : Ip → ℕ → ℕ) (l : ClientList) → length (entries heap l) ≡ ip_size * length l
unfolding entries
length-entries heap [] = refl
length-entries heap (c ∷ rest) = omega (
  arith,
  length-append (ip_entry heap c) (entries heap rest),
  length-ip_entry heap c,
  length-entries heap rest,
)

module _ (heap : Ip → ℕ → ℕ) (ignore_ip : Ip) where
  -- With room for every address that is not ignored, the loop appends them to what is there.
  copy_ips-entries :
      (l : ClientList) (done rest : List ℕ) (copied : ℕ)
      → length done ≡ 1 + ip_size * copied
      → ip_size * length (without ignore_ip l) ≤ length rest
      → copy_ips heap l (length l) ignore_ip (done ++ rest) copied
        ≡ ok (
            done
            ++ (entries heap (without ignore_ip l)
                ++ drop (ip_size * length (without ignore_ip l)) rest))
  unfolding copy_ips without entries
  copy_ips-entries [] done rest copied e h = refl
  copy_ips-entries (c ∷ l) done rest copied e h = elim (Bool-cases (bytes_eq c ignore_ip)) [
    | inl same ↦ rw (same, copy_ips) (copy_ips-entries l done rest copied e (rw same at h))
    | inr other ↦
        let entry = ip_entry heap c in
        let size : length entry ≡ ip_size = length-ip_entry heap c in
        let room : ip_size + ip_size * length (without ignore_ip l) ≤ length rest =
          let h' = (rw other at h) in omega arith in
        let ih =
          copy_ips-entries l (done ++ entry) (drop (length entry) rest) (copied + 1)
            (omega (arith, length-append done entry))
            (omega (arith, length-drop (length entry) rest)) in
        rw
          (
            other,
            copy_ips,
            write_at-append done entry rest (1 + ip_size * copied) (omega arith) (omega arith),
          )
          (rw
            (← drop-drop (ip_size * length (without ignore_ip l)) (length entry)
              (ip_size * suc (length (without ignore_ip l))) rest (omega arith))
            (simp append_assoc (simp append_assoc at ih)))
  ]

  -- With less room some address is written past the end of the block.
  copy_ips-overflow :
      (l : ClientList) (done rest : List ℕ) (copied : ℕ)
      → length done ≡ 1 + ip_size * copied
      → length rest < ip_size * length (without ignore_ip l)
      → copy_ips heap l (length l) ignore_ip (done ++ rest) copied ≡ undefined
  unfolding copy_ips without
  copy_ips-overflow [] done rest copied e h = absurd (omega arith)
  copy_ips-overflow (c ∷ l) done rest copied e h = elim (Bool-cases (bytes_eq c ignore_ip)) [
    | inl same ↦ rw (same, copy_ips) (copy_ips-overflow l done rest copied e (rw same at h))
    | inr other ↦
        let entry = ip_entry heap c in
        let size : length entry ≡ ip_size = length-ip_entry heap c in
        let short : length rest < ip_size + ip_size * length (without ignore_ip l) =
          let h' = (rw other at h) in omega arith in
        elim (dec_lt (length rest) ip_size) [
          | yes full ↦ rw (
            other,
            copy_ips,
            write_at_overflow (done ++ rest) entry (1 + ip_size * copied)
                (omega (arith, length-append done rest)),
          )
          | no more ↦
              let ih =
                copy_ips-overflow l (done ++ entry) (drop (length entry) rest) (copied + 1)
                  (omega (arith, length-append done entry))
                  (omega (arith, length-drop (length entry) rest)) in
              rw
                (
                  other,
                  copy_ips,
                  write_at-append done entry rest (1 + ip_size * copied) (omega arith)
                      (omega arith),
                )
                (rw append_assoc at ih)
        ]
  ]

module _ (fresh : ℕ → ℕ) (heap : Ip → ℕ → ℕ) where
  -- The list holds as many clients as `numClients` says, all different, and the one that asks is
  -- among them: the reply is the number of the others in one byte, then the entries of the others
  -- in order, and nothing else.
  pub send_clients-entries :
      (c : Ip) (rest : ClientList) (ignore_ip : Ip) (n : ℕ)
      → n ≡ length (c ∷ rest)
      → distinct (c ∷ rest) ≡ true
      → contains ignore_ip (c ∷ rest) ≡ true
      → send_clients fresh heap (c ∷ rest) n ignore_ip
        ≡ ok (
            some (
              (length (without ignore_ip (c ∷ rest)) % 256)
              ∷ entries heap (without ignore_ip (c ∷ rest))))
  unfolding send_clients
  send_clients-entries c rest ignore_ip n e d m =
      let w = length (without ignore_ip (c ∷ rest)) in
      let counted : w + 1 ≡ length (c ∷ rest) = length-without ignore_ip (c ∷ rest) d m in
      let less : n - 1 ≡ w = omega arith in
      let size : length (drop 1 (malloc fresh (1 + ip_size * w))) ≡ ip_size * w = omega (
        arith,
        length-malloc fresh (1 + ip_size * w),
        length-drop 1 (malloc fresh (1 + ip_size * w)),
      ) in
      rw
        (
          ==_ne n 0 (λ z. omega arith),
          less,
          write_at-append [] ((w % 256) ∷ []) (malloc fresh (1 + ip_size * w)) 0 refl
              (omega (arith, length-malloc fresh (1 + ip_size * w))),
          count_nodes_lem c rest,
          e,
          ==_refl (length (c ∷ rest)),
          copy_ips-entries heap ignore_ip (c ∷ rest) ((w % 256) ∷ [])
              (drop 1 (malloc fresh (1 + ip_size * w))) 0 refl (omega arith),
        )
        (rw (
          drop_all (drop 1 (malloc fresh (1 + ip_size * w))) (ip_size * w) (omega arith),
          append-nil,
        ))

  -- If the client that is left out is not among them, the last entry is written past the block.
  pub send_clients-overflow :
      (c : Ip) (rest : ClientList) (ignore_ip : Ip) (n : ℕ)
      → n ≡ length (c ∷ rest)
      → contains ignore_ip (c ∷ rest) ≡ false
      → send_clients fresh heap (c ∷ rest) n ignore_ip ≡ undefined
  unfolding send_clients
  send_clients-overflow c rest ignore_ip n e m =
      let block = malloc fresh (1 + ip_size * (n - 1)) in
      let counted = ((n - 1) % 256) ∷ [] in
      let over = copy_ips-overflow heap ignore_ip (c ∷ rest) counted (drop 1 block) 0 refl (
        omega (
          arith,
          length-malloc fresh (1 + ip_size * (n - 1)),
          length-drop 1 block,
          ap (length {A = Ip}) (without_absent ignore_ip (c ∷ rest) m),
        )) in
      rw (
        ==_ne n 0 (λ z. omega arith),
        write_at-append [] counted block 0 refl
            (omega (arith, length-malloc fresh (1 + ip_size * (n - 1)))),
        count_nodes_lem c rest,
        ← e,
        ==_refl n,
        subst (λ k. copy_ips heap (c ∷ rest) k ignore_ip (counted ++ drop 1 block) 0 ≡ undefined)
            (sym e) over,
      )

  -- No message is sent for a count that is not the list's.
  pub send_clients_miscounted :
      (c : Ip) (rest : ClientList) (ignore_ip : Ip) (n : ℕ)
      → n ≢ length (c ∷ rest)
      → send_clients fresh heap (c ∷ rest) n ignore_ip ≡ ok none
  unfolding send_clients
  send_clients_miscounted c rest ignore_ip n h = elim (Bool-cases (n == 0)) [
    | inl none_yet ↦ rw none_yet
    | inr some_yet ↦
        let block = malloc fresh (1 + ip_size * (n - 1)) in
        rw (
          some_yet,
          write_at-append [] (((n - 1) % 256) ∷ []) block 0 refl
              (omega (arith, length-malloc fresh (1 + ip_size * (n - 1)))),
          count_nodes_lem c rest,
          ==_ne (length (c ∷ rest)) n (λ z. h (sym z)),
        )
  ]
