-- ===== src/Tool/Wait.antt =====
-- pkg/utils/wait.go: WaitLoop.
pub mod Loop
pub mod Ends
pub mod Keeps
