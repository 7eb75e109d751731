-- ===== src/Adg.antt =====
-- cgra-compiler/{include,src}/adg: the architecture graph, onto which the data-flow graph is mapped.
pub mod Node
pub mod Store
pub mod Connect
pub mod Operand
mod Examples
