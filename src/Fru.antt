-- ===== src/Fru.antt =====
-- src/sysd_fru.c and include/sysd_fru.h: reading the FRU EEPROM.
pub mod Layout
pub mod Eeprom
pub mod Termination
pub mod Image
pub mod Fields
pub mod RoundTrip
pub mod Read
pub mod ReadLaws
pub mod EndToEnd
pub mod Overflow
mod Examples
