-- ===== src/Xml.antt =====
-- src/libs/xml
pub mod Node
