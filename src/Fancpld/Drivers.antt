-- ===== src/Fancpld/Drivers.antt =====
-- The fan CPLD drivers of the platforms, each from its own file.
pub mod Mp3
pub mod Mp3n
pub mod W800
pub mod Anacapa
pub mod Icecube
pub mod Tahansb
pub mod Icetea
pub mod Leh800b
