-- ===== src/FakeWdp.antt =====
-- services/fake-wdp/app/main.py: the stand-in for the WDP Query Interface.
pub mod Queries
pub mod Service
pub mod Bound
pub mod Denial
