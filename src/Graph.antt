-- ===== src/Graph.antt =====
-- cgra-compiler/{include,src}/graph: the edge and the port tables of a node and of a graph, which
-- the data-flow graph and the architecture graph extend. Identifiers and port indices are natural
-- numbers; where the source answers -1 the model answers `none`.
pub mod Edge
pub mod Node
pub mod Ports
