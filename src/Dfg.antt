-- ===== src/Dfg.antt =====
-- cgra-compiler/{include,src}/dfg: the data-flow graph that is mapped.
pub mod Node
pub mod Store
pub mod Ends
pub mod Content
pub mod Consistent
pub mod Copy
pub mod Topo
mod Examples
