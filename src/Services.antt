-- ===== src/Services.antt =====
-- components/nev_services: the decision cores of the L2 services.
pub mod Net
pub mod Power
pub mod Talk
pub mod Ota
