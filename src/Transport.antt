-- ===== src/Transport.antt =====
-- crates/datamancer-transport-iceoryx2/src: symbol ids and the wire record of an event.
pub mod Symbols
pub mod Payload
