-- ===== src/Tests.antt =====
-- The theorems at concrete inputs, with the toy crates of World.
mod Values
mod Clips
mod Blobs
mod Pairs
mod Rings
mod Classes
mod Agents
mod Codec
mod Guis
mod Shells
mod Wires
mod Drivers
mod Starts
