-- ===== src/Engine.antt =====
-- The graph engine (langgraph, which is not a part of the repository): an interface, and what its
-- documentation says of it. A run is a sequence of supersteps. Each runs one node, writes the keys
-- that the node returned into the state, and follows the edge. The run ends at `END`, with an
-- exception of a node, or when the limit on supersteps is used up.
mod Defs
mod Reference
pub use Defs.*
unfoldable pub use Reference.*
