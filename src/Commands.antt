-- ===== src/Commands.antt =====
-- cmd: the processes, from the reading of the configuration to their exit.
pub mod Worker
pub mod Api
