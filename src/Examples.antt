-- ===== src/Examples.antt =====
-- Concrete runs of the code that the theorems speak of, one for each theorem that has hypotheses.
mod Uuid
mod Disk
mod Advertisement
mod Identity
mod Names
mod Pairing
mod Discovery
mod Browser
mod Peers
mod Trusted
