-- ===== src/Examples.antt =====
-- The programs of examples/, which use bitstream.h from end to end.
pub mod Sensor
pub mod HuffmanDecode
pub mod DeflateCodes
pub mod Mp3Header
pub mod FastDecode
pub mod Hex
pub mod Text
pub mod StoredBlock
