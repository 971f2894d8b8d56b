-- ===== src/Rail/History.antt =====
-- What holds of the log of every action after every sequence of calls.
pub mod Chain
pub mod Replay
pub mod Closed
