-- ===== src/Lib.antt =====
-- The mapping tool of FDRA, cgra-compiler/: a data-flow graph is placed and routed on the graph of a
-- reconfigurable array, and its data is placed in the banks of a scratchpad.
--
-- The parts, the files of the repository that they model, and how they work together:
--   Prelude      shared: maps and sets in the order of their keys (`std::map`, `std::set`), tables of
--                sets, integers, lists, tests, and the outcomes of code that may fail.
--   Graph        include/graph and src/graph: an edge (graph_edge.h), a node with its port tables
--                (GraphNode, graph_node.cpp), and the ports of a graph itself (Graph, graph.cpp).
--   Operations   include/op and src/op: the table of the operations, filled from a JSON file.
--   Dfg          include/dfg and src/dfg: the data-flow graph. `Node` is DFGNode and DFGIONode. `Store`
--                is DFG with addNode, addEdge, delEdge, getInNodes, getOutNodes and operator=, `Topo` is
--                dfs and topoSortNodes. `Ends` reads the ends of the edges from the port tables and
--                `Consistent` is the invariant that ties them to the edges, `Content` is about what stays
--                beside them, `Copy` is about operator=.
--   Adg          include/adg and src/adg: the architecture graph. `Node` has the classes of its nodes,
--                `Store` is ADG, `Connect` is the part of src/ir/adg_ir.cpp that fills the switch of an
--                interconnect block (the walk over the inner graph that finds the connections is
--                not modelled), `Operand` is about FUNode::getOperandIdx.
--   Mapper       include/mapper and src/mapper. `Mapping` is the state of mapping.cpp with the
--                placement (mapDfgNodeNoRoute, unmapDfgNodeNoUnroute; `Placed`), the routing of one
--                edge through one block (routeDfgEdgePass; `Route`, `Pass`, `Accepted`), the ports where an
--                edge can end (availDstPorts; `Operands`, `Offers`), routeDfgEdge with its search (`Search`) and
--                the recording of the path (`Walk`), the unrouting (unrouteDfgEdge; `Unroute`),
--                mapDfgNode (`MapNode`) and unmapDfgNode (`Unmap`). `Timing` is the part of mapping.cpp
--                about latencies: calEdgeRouteLat (`RouteLat`), latencyBound (`Bound`, `Latest`,
--                `Longest`), getAvailDelay (`Delay`, `Left`) and calEdgeLatVio (`Violation`, `Frame`, `Vio`,
--                `Totals`, `Met`, `Whole`, `Within`). `PassNodes` is insertPassDfgNodes (`Split` and `Made`
--                are about one node, `Loop` about the loop, `Whole` about the function).
--                `IoScheduler` is io_scheduler.cpp: `Select` chooses a bank, `Dependence` and
--                `Best` say what the choice means, `Schedule` and `Task` are ioSchedule,
--                `Disjoint`, `Whole`, `Apart` and `Complete` are about its result, `Config` places
--                the configuration (genCfgData).
--                `Supply` is the part of mapper.cpp that counts, for each operation, the nodes and the
--                units that are left (calAdgOpCnt, calCandidatesCnt, initOpLeftDfgAdgNum,
--                updateOpLeftDfgAdgNum; `Shift`, `Counts`, `Restore`), with preMapCheck (`Check`).
-- The mapper reads both graphs: `Mapping` keeps which node is on which unit and which ports an edge
-- holds, and the scheduler takes the block of each input and output node from it.
--
-- How the code is represented: a pointer to a node or an edge is its identifier, and the null pointer
-- is `none`. A failed assertion, a null pointer that is used, and an index or a shift out of range
-- are `none` (`fault` where a search may also run out of fuel). A method that changes its object takes
-- the state and gives the new one. An `int` that is never negative is a natural number and -1, where
-- the code allows it, is `none`; where the code subtracts below 0 the comparison is written by
-- addition. Sizes and addresses are assumed to stay within an `int`.
--
-- Fuel: the depth-first search of `Dfg.Topo` takes one more than the number of nodes. Each call that
-- goes on marks one more node as visited, so that the fuel is enough, on cyclic graphs too. The
-- breadth-first search of `Mapper.Mapping.Search` takes two more than the number of keys, which are
-- the pairs of a node and an output port that inputs come from: a key enters the queue once. All other
-- loops run over a list or a fixed number of rounds.
--
-- `std::sort` is an insertion sort here; the order of nodes that its comparison does not separate may
-- be another one in the code. Of the results only the choice of the edges that get a pass node names
-- this order, where several edges lack as much delay.
--
-- Not modelled: DFG::delNode and routeDfgEdgeFromSrc, which nothing calls; the sub-module graphs of
-- architecture nodes; latencySchedule of mapping.cpp; the packing of configuration words
-- (configuration.cpp), whose number is an argument of `place_cfg`; the annealing and the choice of
-- candidates (mapper_sa.cpp), the distances (mapper.cpp); the readers of JSON files (src/ir); printing, visualisation and the command line; the vendored libraries (nlohmann, spdlog);
-- app-compiler and the other directories of the repository.
pub mod Prelude
pub mod Graph
pub mod Operations
pub mod Dfg
pub mod Adg
pub mod Mapper
