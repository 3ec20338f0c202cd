-- ===== src/Cfg/Builder.antt =====
-- What the two passes of the builder guarantee.
pub mod Partition
pub mod Numbers
pub mod Labels
pub mod Links
