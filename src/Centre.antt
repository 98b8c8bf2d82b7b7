-- ===== src/Centre.antt =====
-- packages/centre: the exam centre's node.
pub mod Prng
pub mod Assemble
pub mod PaperHash
pub mod Store
pub mod Print
pub mod Node
pub mod ExamDay
pub mod Papers
pub mod Ledger
