-- ===== src/Threads/Served.antt =====
-- The tracker of examples/tracker/tracker2.c as its clients see it, while their commands do not overlap.
