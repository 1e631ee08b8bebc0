-- ===== src/PowerMemory.antt =====
-- The power memory (modules/aquarius_plant_led/custom_components/aquarius_plant_led/state_store.py):
-- which output an explicit Off left, and whether On may restore it.
pub mod Record
pub mod Memory
