-- ===== src/Fsrecov.antt =====
-- M6-fsrecov: recovers the bitmaps of a FAT-32 image from what looks like directory entries. Entry
-- has the predicates on entries, Disk the geometry, Scan the scan of clusters, Match the matching of
-- entries across clusters; the other modules are about these.
pub mod Entry
pub mod Disk
pub mod Scan
pub mod Match
pub mod Predicates
pub mod Waiting
pub mod Searching
pub mod Header
pub mod Groups
pub mod Image
pub mod Matching
mod Tests
pub mod Bounds
