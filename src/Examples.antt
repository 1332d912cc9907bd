-- ===== src/Examples.antt =====
-- The theorems at concrete inputs, and runs of the modelled code of src/.
mod Tracker
mod Bencode
mod Wire
mod Peer
mod Torrent
mod Loop
mod Text
mod Main
mod Sockets
mod Swarm
mod Choked
mod Threads
