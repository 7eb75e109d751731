-- ===== src/Mapper.antt =====
-- cgra-compiler/{include,src}/mapper: the mapping of the data-flow graph onto the architecture graph,
-- and the placement of its data in the scratchpad.
pub mod Port
pub mod Mapping
pub mod IoScheduler
pub mod Timing
pub mod PassNodes
pub mod Supply
mod Examples
