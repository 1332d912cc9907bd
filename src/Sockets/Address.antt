-- ===== src/Sockets/Address.antt =====
-- The address that client_socket_wrapper of src/util.c makes.
use soft_sys_dubstep_ducks.Prelude.{
  ℕ, ◌/◌, ◌%◌, ◌<◌, ◌≡◌, refl, List, [], ◌∷◌, ◌++◌, ok, exits, undefined, Option, none, some, arith,
  length, replicate, drop-append, write_at-append, write_at_overflow, length-append,
}
use soft_sys_dubstep_ducks.Sockets.{
  sockaddr_size, af_inet, htons, write_address, client_socket_wrapper,
}

-- In a block with room for an address, the first 16 bytes become the family, the port with its high
-- byte first, the 4 bytes of the address and 8 zeros, and the rest is left alone; without a socket
-- the program exits with 1.
pub client_socket_wrapper_lem :
    (inet_pton : List ℕ → Option (List ℕ)) (socket : Option ℕ) (block rest server : List ℕ)
    (a b c d port : ℕ)
    → length block ≡ 16
    → inet_pton server ≡ some (a ∷ b ∷ c ∷ d ∷ [])
    → client_socket_wrapper inet_pton socket (block ++ rest) server port ≡ elim socket [
      | none ↦ exits 1
      | some fd ↦
          ok (
            2 ∷ 0 ∷ (port / 256 % 256) ∷ (port % 256) ∷ a ∷ b ∷ c ∷ d ∷ (replicate 8 0 ++ rest),
            fd,
          )
    ]
unfolding client_socket_wrapper write_address
client_socket_wrapper_lem inet_pton socket block rest server a b c d port h e =
    rw
      (
        write_at-append [] (replicate 16 0) (block ++ rest) 0 refl
            (omega (arith, length-append block rest)),
        drop-append block rest 16 (omega arith),
        write_at-append [] af_inet (replicate 16 0 ++ rest) 0 refl (omega arith),
        e,
        write_at-append (2 ∷ 0 ∷ 0 ∷ 0 ∷ []) (a ∷ b ∷ c ∷ d ∷ []) (replicate 12 0 ++ rest) 4 refl
            (omega arith),
        write_at-append (2 ∷ 0 ∷ []) (htons port) (0 ∷ 0 ∷ a ∷ b ∷ c ∷ d ∷ (replicate 8 0 ++ rest))
            2 refl (omega arith),
      )
      refl

-- Of a block that is smaller, as the pointer is whose address torrent.c passes, the bytes behind it
-- are written.
pub client_socket_wrapper-overflow :
    (inet_pton : List ℕ → Option (List ℕ)) (socket : Option ℕ) (block server : List ℕ) (port : ℕ)
    → length block < sockaddr_size
    → client_socket_wrapper inet_pton socket block server port ≡ undefined
unfolding client_socket_wrapper
client_socket_wrapper-overflow inet_pton socket block server port h =
    rw (write_at_overflow block (replicate sockaddr_size 0) 0 (omega arith))
