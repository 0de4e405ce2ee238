-- ===== src/Wmt.antt =====
-- modules/connectivity/wmt-loader.c: the firmware files in Firmware, the ioctls that carry them and
-- the commands that ask for them in Patches, the start up to the service loop in Startup, and the
-- loop in Serve.
pub mod Firmware
pub mod Patches
pub mod Startup
pub mod Serve
pub mod Order
pub mod Exit
pub mod Once
