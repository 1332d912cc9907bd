-- ===== src/Torrent/Loop/Visits.antt =====
-- What the visits of the loop of main in src/torrent.c keep.
use soft_sys_dubstep_ducks.Prelude.{
  max, arith, ◌<◌, zero, suc, ℕ, ◌+◌, ◌≡◌, refl, List, [], ◌∷◌, Bool, true, false, Outcome, ok,
  Option, none, some, length, length-set, get_elem?, get_elem?-set_ne, Always, Always-bind,
  Always-any, Always-if, Always-mono, Always-returned, Always-undefined, Always-ok, subst, sym, bit,
  ◌==◌, ◌∙◌, or_undefined, or_undefined-eq, load, ◌>>=◌, if◌then◌else◌, ◌&&◌, ltb,
}
use soft_sys_dubstep_ducks.Connection.{
  own_interested, own_choke, Connection, Sent, send_request, send_unchoked, send_piece,
  send_interested, send_uninterested,
}
use soft_sys_dubstep_ducks.Bitfield.{peer_contains_undownloaded_pieces}
use soft_sys_dubstep_ducks.Torrent.{bitfield_len}
use soft_sys_dubstep_ducks.Torrent.Writable.{
  Written, request_found, on_writable, deliver, first_missing, nothing_written,
}
use soft_sys_dubstep_ducks.Torrent.Loop.{Download, Client, Visit, write_out, read_in, visit, visits}

-- As many connections as before, and the index of one of them.
abbrev Placed : List Connection → Written → Type 0
Placed connections w = (length w.connections ≡ length connections) × (w.next < length connections)

delivered :
    (connections : List Connection) (i : ℕ) (m : Outcome Sent)
    → i < length connections
    → Always (Placed connections) (m >>= λ r. ok (deliver connections i r))
delivered connections i m inside =
    Always-any (Placed connections) m (λ r. ok (deliver connections i r))
      (λ r.
        Always-returned (Placed connections) (deliver connections i r)
          (length-set connections i r.1, inside))

pub index_inside :
    {A : Type 0} (xs : List A) (i : ℕ) (a : A) → get_elem? xs i ≡ some a → i < length xs
index_inside [] i a e = cc
index_inside (x ∷ xs) zero a e = omega arith
index_inside (x ∷ xs) (suc i) a e = omega (arith, index_inside xs i a e)

request_found-Placed :
    (fresh : ℕ → ℕ) (sends : Bool) (connections : List Connection) (found : Option ℕ)
    → Always (Placed connections) (request_found fresh sends connections found)
unfolding request_found
request_found-Placed fresh sends connections none = Always-undefined (Placed connections)
request_found-Placed fresh sends connections (some k) =
    Always-bind _ (Placed connections) (or_undefined (get_elem? connections k)) _
      (or_undefined-eq (get_elem? connections k))
      (λ c here.
        delivered connections k (send_request fresh sends c k) (index_inside connections k c here))

on_writable-Placed :
    (fresh : ℕ → ℕ) (sends : Bool) (fd : Option (List ℕ)) (total len : ℕ) (own : List ℕ)
    (connections : List Connection) (i : ℕ)
    → Always (Placed connections) (on_writable fresh sends fd total len own connections i)
unfolding on_writable
on_writable-Placed fresh sends fd total len own connections i =
    Always-bind _ P (or_undefined (get_elem? connections i)) _
      (or_undefined-eq (get_elem? connections i))
      (λ c here.
        let inside = index_inside connections i c here in
        let unwritten = Always-returned P (nothing_written connections i) (refl, inside) in
        Always-if P _ _ _
          (Always-if P _ _ _ (delivered connections i (send_unchoked fresh sends c) inside) (
            Always-if P _ _ _
              (delivered connections i (send_piece fresh sends fd c c.piece_to_send len) inside)
              unwritten))
          (Always-if P _ _ _ unwritten (
            Always-any P
              (peer_contains_undownloaded_pieces c.peer_bitfield own (bitfield_len total)) _
              (λ missing.
                Always-if P missing _ _
                  (Always-if P (bit own_interested c.status_flags == 1) _ _
                    (Always-if P (bit own_choke c.status_flags == 1) _ _ unwritten (
                      Always-any P (load own 0) _ (λ own_byte.
                        Always-any P (first_missing own_byte connections total 0) _
                          (λ found. request_found-Placed fresh sends connections found))))
                    (delivered connections i (send_interested fresh sends c) inside))
                  (delivered connections i (send_uninterested fresh sends c) inside)))))
  where
    P : Written → Type 0
    P = Placed connections

open_or_closed : {o : Option Bool} → o ≡ some true → o ≡ some false → ⊥
open_or_closed e e' = cc

-- The entries of `fds` that are closed stay closed.
abbrev pub StayClosed : List Bool → List Bool → Type 0
StayClosed fds fds' = (k : ℕ) → get_elem? fds k ≡ some false → get_elem? fds' k ≡ some false

-- The arrays have their sizes, as many entries are visited, what is closed stays closed, and the index
-- is that of an entry.
abbrev pub Keeps : Client → Client × ℕ → Type 0
Keeps s r =
    (length r.0.connections ≡ length s.connections)
    × (length r.0.fds ≡ length s.fds)
    × (r.0.max_peer_index ≡ s.max_peer_index)
    × StayClosed s.fds r.0.fds
    × (r.1 < max (length s.connections) (length s.fds))

module _ (fresh : ℕ → ℕ) (d : Download) where
  write_out-Keeps :
      (s : Client) (i : ℕ) (sends : Bool) → Always (Keeps s) (write_out fresh d s i sends)
  unfolding write_out
  write_out-Keeps s i sends =
      Always-bind (Placed s.connections) (Keeps s) _ _
        (on_writable-Placed fresh sends d.fd d.total_pieces_in_file d.piece_size_bytes d.own
          s.connections i)
        (λ w p.
          Always-returned (Keeps s) _ (p.0, refl, refl, (λ k closed. closed), omega (arith, p.1)))

  -- An open entry is received at: the arrays have their sizes, and no other entry changes.
  read_in-Keeps :
      (s : Client) (i : ℕ) (v : Visit)
      → get_elem? s.fds i ≡ some true
      → Always (λ s'. Keeps s (s', i)) (read_in fresh d s i v)
  unfolding read_in
  read_in-Keeps s i v here = Always-any _ (or_undefined (get_elem? s.connections i)) _ (λ c.
      Always-any _ _ _ (λ p. Always-returned _ _ (
        length-set s.connections i p.connection,
        length-set s.fds i p.is_open,
        refl,
        (λ k closed.
            rw
              (get_elem?-set_ne s.fds i k p.is_open (λ e.
                open_or_closed here (subst (λ m. get_elem? s.fds m ≡ some false) (sym e) closed)))
              closed),
        omega (arith, index_inside s.fds i true here),
      )))

  -- What is kept first and then is kept from the beginning.
  Keeps-then : (s s' : Client) (i : ℕ) → Keeps s (s', i) → (r : Client × ℕ) → Keeps s' r → Keeps s r
  Keeps-then s s' i k r q = (
    q.0 ∙ k.0,
    q.1 ∙ k.1,
    q.2 ∙ k.2,
    (λ j closed. q.3 j (k.3 j closed)),
    omega (arith, q.4, k.0, k.1),
  )

  pub visit-Keeps : (s : Client) (i : ℕ) (v : Visit) → Always (Keeps s) (visit fresh d s i v)
  unfolding visit
  visit-Keeps s i v =
      Always-bind (λ b. get_elem? s.fds i ≡ some b) (Keeps s) (or_undefined (get_elem? s.fds i)) _
        (or_undefined-eq (get_elem? s.fds i)) (λ is_open here. by_state is_open here)
    where
      by_state :
          (is_open : Bool)
          → get_elem? s.fds i ≡ some is_open
          → Always (Keeps s) (
              if is_open
              then (read_in fresh d s i v >>= λ s'.
                  if v.writable && d.pollout i then write_out fresh d s' i v.sends else ok (s', i))
              else ok (s, i))
      by_state true here =
          Always-bind _ (Keeps s) (read_in fresh d s i v) _ (read_in-Keeps s i v here) (λ s' k.
            Always-if (Keeps s) (v.writable && d.pollout i) (write_out fresh d s' i v.sends)
              (ok (s', i))
              (Always-mono (Keeps s') (Keeps s) _ (write_out-Keeps s' i v.sends)
                (Keeps-then s s' i k))
              (Always-returned (Keeps s) (s', i) k))
      by_state false here =
          Always-returned (Keeps s) (s, i)
            (refl, refl, refl, (λ k closed. closed), omega (arith, index_inside s.fds i false here))

  -- The same of any number of visits, but for the index, which is where the next visit would be.
  abbrev Stays : Client → Client × ℕ → Type 0
  Stays s r =
      (length r.0.connections ≡ length s.connections)
      × (length r.0.fds ≡ length s.fds)
      × (r.0.max_peer_index ≡ s.max_peer_index)
      × StayClosed s.fds r.0.fds

  visits-Stays :
      (s : Client) (i : ℕ) (script : List Visit) → Always (Stays s) (visits fresh d s i script)
  unfolding visits
  visits-Stays s i [] = Always-returned (Stays s) (s, i) (refl, refl, refl, (λ k closed. closed))
  visits-Stays s i (v ∷ rest) =
      Always-if (Stays s) (ltb i (s.max_peer_index + 1)) _ (ok (s, i))
        (Always-bind (Keeps s) (Stays s) (visit fresh d s i v) _ (visit-Keeps s i v) (λ r p.
          Always-mono (Stays r.0) (Stays s) (visits fresh d r.0 (r.1 + 1) rest)
            (visits-Stays r.0 (r.1 + 1) rest)
            (λ r' q. (q.0 ∙ p.0, q.1 ∙ p.1, q.2 ∙ p.2, (λ k closed. q.3 k (p.3 k closed))))))
        (Always-returned (Stays s) (s, i) (refl, refl, refl, (λ k closed. closed)))

-- In whatever state the visits of a round are after a while, the arrays have their sizes, the number
-- of entries that are visited is what it was, and an entry of `fds` that was closed is closed.
pub visits_invariant :
    (fresh : ℕ → ℕ) (d : Download) (s s' : Client) (i j k : ℕ) (script : List Visit)
    → get_elem? s.fds k ≡ some false
    → visits fresh d s i script ≡ ok (s', j)
    → (length s'.connections ≡ length s.connections)
      × (length s'.fds ≡ length s.fds)
      × (s'.max_peer_index ≡ s.max_peer_index)
      × (get_elem? s'.fds k ≡ some false)
visits_invariant fresh d s s' i j k script closed e =
    let kept =
      Always-ok (Stays fresh d s) (visits fresh d s i script) (s', j)
        (visits-Stays fresh d s i script) e in
    (kept.0, kept.1, kept.2, kept.3 k closed)
