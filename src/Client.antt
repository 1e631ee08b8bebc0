-- ===== src/Client.antt =====
-- The serialized TCP client of the lamp (modules/aquarius_plant_led/custom_components/
-- aquarius_plant_led/client.py).
pub mod State
pub mod Io
pub mod Transport
pub mod Guards
pub mod Operations
pub mod Execute
pub mod Trace
pub mod Commands
