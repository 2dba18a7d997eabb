-- ===== src/Layer.antt =====
-- The layers of an overlay: what one layer holds at a path, which markers stand there, and how
-- the markers and links of the higher layers hide the lower ones.
-- (src/LayerMount.dll/impl: LayerPath, WhiteoutManager, PathResolver, DirectoryMerge.)
pub mod Disk
pub mod Walk
pub mod Markers
pub mod Tree
pub mod Ancestry
pub mod Source
pub mod Names
pub mod Lookup
pub mod Merge
pub mod View
pub mod Listing
pub mod Consistency
pub mod Tests
