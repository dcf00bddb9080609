-- ===== src/Mux.antt =====
-- The two halves of one leg of the `/api/remote.mux` carrier: the fragmenting sender
-- (src/remote-mux-sender.ts) and the heartbeat (src/remote-mux-heartbeat.ts).
pub mod Sender
pub mod Heartbeat
pub mod Diagnostics
