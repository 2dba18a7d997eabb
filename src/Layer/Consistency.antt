-- ===== src/Layer/Consistency.antt =====
-- The listing of a directory and the lookup of a path show one merged view.
pub mod Folding
pub mod Scans
pub mod Merges
pub mod Layers
pub mod View
