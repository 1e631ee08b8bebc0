-- ===== src/Compact.antt =====
-- Compact colour controls (modules/aquarius_plant_led/custom_components/aquarius_plant_led/
-- compact.py): the validators of roles, colours and levels, and the integer recipes.
pub mod Roles
pub mod Recipe
pub mod Valid
pub mod HalfUp
pub mod Mix
pub mod Scale
