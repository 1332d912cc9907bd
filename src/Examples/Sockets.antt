-- ===== src/Examples/Sockets.antt =====
-- The sockets of src/util.c and src/tracker.c, and be_free of src/bencode.c, on small inputs.
use soft_sys_dubstep_ducks.Prelude.{ℕ, ◌≡◌, refl, true, ◌&&◌, not, ok, undefined, some, ltb}
use soft_sys_dubstep_ducks.Sockets.{
  Network, is_negative, configure_socket, configure_tracker_socket,
}
use soft_sys_dubstep_ducks.Sockets.Listener.{Listens, configure_socket-eq}
use soft_sys_dubstep_ducks.Bencode.Free.{
  Blocks, str_at, int_at, dict_at, no_entry, entry_at, Heap, elem, be_free,
}
use soft_sys_dubstep_ducks.Bencode.Free.Once.{blocks, be_free_once}

abbrev network : Network
network = record {
  socket = some 3;
  setsockopt = λ fd. not (is_negative fd);
  bind = λ fd. true;
  listen = λ fd. true;
}

configure_socket-eq_example :
    (configure_socket network ≡ configure_tracker_socket network)
    × Listens network (configure_socket network)
configure_socket-eq_example = configure_socket-eq network refl

-- A dictionary with a text and a number.
abbrev two_entries : Blocks
two_entries =
    dict_at 0 1 (entry_at (some 2) (str_at 3 (some 4)) (entry_at (some 5) (int_at 6) no_entry))

abbrev seven_blocks : Heap
seven_blocks a = ltb a 9

be_free_once_example :
    (h' : Heap) × (be_free two_entries seven_blocks ≡ ok h')
    × ((a : ℕ) → h' a ≡ (seven_blocks a && not (elem a (blocks two_entries))))
    × (be_free two_entries h' ≡ undefined)
unfolding blocks
be_free_once_example =
    be_free_once two_entries seven_blocks (refl, (refl, (refl, (refl, (refl, (refl, (refl, tt)))))))
      (refl, (refl, (refl, (refl, (refl, (refl, (refl, tt)))))))
