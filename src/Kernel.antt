-- ===== src/Kernel.antt =====
-- components/nev_kernel: the L1 kernel.
pub mod Blob
pub mod Bus
pub mod Sha256
pub mod Store
