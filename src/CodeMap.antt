-- ===== src/CodeMap.antt =====
-- web/src/lib/codemap.ts, and its copy in the control panel: the client-side code map.
pub mod Graph
pub mod Doc
pub mod Fans
pub mod Invariant
pub mod Locate
pub mod Merge
pub mod Overlay
pub mod Related
pub mod Samples
pub mod Tree
mod Tests
