-- ===== src/Bloom.antt =====
-- bloom/: bloom filters for light clients.
pub mod Murmur
pub mod Filter
