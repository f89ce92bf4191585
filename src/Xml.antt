-- ===== src/Xml.antt =====
-- crates/clayers-xml, as far as it does not rest on the XML library.
pub mod Hash
