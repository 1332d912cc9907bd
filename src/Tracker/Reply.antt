-- ===== src/Tracker/Reply.antt =====
-- sendClients of src/tracker.c: the addresses of the other clients in one message.
--
-- `memcpy(…, curr_node->ip, IP_SIZE)` reads 16 bytes from a block that has only as many as the text `ip`
-- and its NUL: `heap ip` is what stands in memory behind them. C leaves such a read undefined; here it
-- is taken for one of bytes that are there, as every reply to a client with others depends on it.
pub mod Sound
use soft_sys_dubstep_ducks.Prelude.{
  ℕ, zero, suc, ◌+◌, ◌-◌, ◌*◌, ◌%◌, ◌≡◌, refl, List, [], ◌∷◌, ◌++◌, Bool, true, false, Outcome, ok,
  undefined, ◌>>=◌, Option, none, some, length, take, malloc, write_at, bytes_eq, if◌then◌else◌,
  ◌==◌,
}
use soft_sys_dubstep_ducks.Tracker.Clients.{Ip, ClientList, count_nodes}

-- tracker.h: IP_SIZE.
abbrev pub ip_size : ℕ
ip_size = 16

-- The IP_SIZE bytes from the head of a text on.
unfoldable pub ip_entry : (Ip → ℕ → ℕ) → Ip → List ℕ
ip_entry heap ip = take ip_size (ip ++ 0 ∷ malloc (heap ip) ip_size)

-- The `for` loop: i rounds are left, and `copied` addresses stand in the data.
unfoldable pub copy_ips : (Ip → ℕ → ℕ) → ClientList → ℕ → Ip → List ℕ → ℕ → Outcome (List ℕ)
copy_ips heap clients zero ignore_ip block copied = ok block
copy_ips heap [] (suc i) ignore_ip block copied = undefined
copy_ips heap (c ∷ rest) (suc i) ignore_ip block copied = elim (bytes_eq c ignore_ip) [
  | true ↦ copy_ips heap rest i ignore_ip block copied
  | false ↦ do
    block' ← write_at block (1 + ip_size * copied) (ip_entry heap c)
    copy_ips heap rest i ignore_ip block' (copied + 1)
]

-- The data that is handed to `sendData`, or nothing on the two early returns.
unfoldable pub send_clients :
    (ℕ → ℕ) → (Ip → ℕ → ℕ) → ClientList → ℕ → Ip → Outcome (Option (List ℕ))
send_clients fresh heap head num_clients ignore_ip = if num_clients == 0 then ok none else do
  let to_send = num_clients - 1
  block ← write_at (malloc fresh (1 + ip_size * to_send)) 0 ((to_send % 256) ∷ [])
  counted ← count_nodes head
  let copy = copy_ips heap head num_clients ignore_ip block 0
  if counted == num_clients then (copy >>= λ filled. ok (some filled)) else ok none
