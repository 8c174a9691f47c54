-- ===== src/Tests.antt =====
-- Runs of the definitions on small inputs, and the theorems at inputs that meet their hypotheses.
mod MemoryTests
mod TxnTests
mod WalTests
mod ValueTests
mod ManagerTests
mod OpenTests
mod GraphTests
