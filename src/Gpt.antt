-- ===== src/Gpt.antt =====
-- M3-gpt: the pool of threads that gpt.c computes its matrix products with.
mod Tests
pub mod Pool
pub mod Queue
pub mod Invariant
pub mod Producer
pub mod Consumer
pub mod Run
pub mod Potential
pub mod Progress
pub mod Wake
pub mod Asleep
pub mod Turning
pub mod Returns
pub mod Sample
pub mod Calc
pub mod Rows
pub mod Jobs
pub mod Product
