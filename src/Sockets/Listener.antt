-- ===== src/Sockets/Listener.antt =====
-- The two listeners, of src/util.c and of src/tracker.c, held against each other.
use soft_sys_dubstep_ducks.Prelude.{
  ℕ, ◌≡◌, refl, true, false, Outcome, ok, exits, undefined, out_of_fuel, Option, none, some,
  Option-cases, Bool-cases, inl, inr,
}
use soft_sys_dubstep_ducks.Sockets.{
  Network, is_negative, configure_socket, configure_tracker_socket,
}

-- What a listener may come to: every call has succeeded on the descriptor that is returned, or the
-- program exits with 1.
abbrev pub Listens : Network → Outcome (Option ℕ) → Type 0
Listens net (ok fd) =
    (net.socket ≡ fd)
    × (is_negative fd ≡ false)
    × (net.setsockopt fd ≡ true)
    × (net.bind fd ≡ true)
    × (net.listen fd ≡ true)
Listens net (exits n) = n ≡ 1
Listens net undefined = ⊥
Listens net out_of_fuel = ⊥

-- Where setsockopt fails on -1, as it does with EBADF, the two listeners do the same, though only
-- that of the tracker tests its descriptor: both exit with 1, or both return the descriptor of socket,
-- which is not -1, and all calls have succeeded on it.
pub configure_socket-eq :
    (net : Network)
    → net.setsockopt none ≡ false
    → (configure_socket net ≡ configure_tracker_socket net) × Listens net (configure_socket net)
unfolding configure_socket configure_tracker_socket
configure_socket-eq net h = elim (Option-cases net.socket) [
  | inl failed ↦ rw failed (rw h (refl, refl))
  | inr (fd, e) ↦ rw e (elim (Bool-cases (net.setsockopt (some fd))) [
    | inl set ↦ elim (Bool-cases (net.bind (some fd))) [
      | inl bound ↦ elim (Bool-cases (net.listen (some fd))) [
        | inl listening ↦ rw (set, bound, listening) (refl, (refl, refl, set, bound, listening))
        | inr not_listening ↦ rw (set, bound, not_listening) (refl, refl)
      ]
      | inr unbound ↦ rw (set, unbound) (refl, refl)
    ]
    | inr unset ↦ rw unset (refl, refl)
  ])
]
