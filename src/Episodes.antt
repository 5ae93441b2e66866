-- ===== src/Episodes.antt =====
-- src/cadrig/episodes.py: the recorded episodes. `Redaction` is what is removed from a payload, `Paths`
-- where an artifact is copied to, `Store` how an episode is written; the others prove.
pub mod Redaction
pub mod Paths
pub mod Store
pub mod Secrecy
pub mod Confinement
pub mod Immutability
