-- ===== src/Xml/Node.antt =====
-- src/libs/xml/XMLNode.hpp
use ctguard.Base.{List, Bytes}

abbrev pub Attributes : Type 0
Attributes = List (Bytes × Bytes)

-- An `XMLNode` without its children.
pub record NodeInfo : Type 0 where
  pub name : Bytes
  pub attributes : Attributes
  pub value : Bytes

-- `std::vector<XMLNode>`, each node with the vector of its children: `cons node children siblings`.
pub data Nodes : Type 0 where
  nil : Nodes
  cons : NodeInfo → Nodes → Nodes → Nodes
