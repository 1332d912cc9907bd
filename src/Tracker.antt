-- ===== src/Tracker.antt =====
-- The tracker: src/tracker.c and src/tracker.h, shared by its server and its clients, and the server
-- src/tracker_serv.c. `Clients` is the linked list of clients, `Message` what travels between the two
-- sides, `Reply` the peer list that the server sends, `Peers` the client's side of that exchange, and
-- `Server` the accept loop.
pub mod Clients
pub mod Message
pub mod Reply
pub mod Peers
pub mod Server
pub mod Tests
