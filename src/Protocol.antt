-- ===== src/Protocol.antt =====
-- The Aquarius wire protocol (modules/aquarius_plant_led/custom_components/aquarius_plant_led/
-- protocol.py): 20-byte core frames, the C/D permutation, replies and the stream decoder.
pub mod Frame
pub mod Reply
pub mod Decoder
pub mod RoundTrip
