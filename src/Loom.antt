-- ===== src/Loom.antt =====
-- src/loom.rs: the limits of the spin loops, outside of the loom tests.
use swap_buffer_queue.Prelude.{ℕ}

abbrev pub spin_limit : ℕ
spin_limit = 64

abbrev pub backoff_limit : ℕ
backoff_limit = 6
