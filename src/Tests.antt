-- ===== src/Tests.antt =====
-- The operations at concrete inputs, and for each property with hypotheses an input where it applies.
mod Lengths
mod Ranges
mod Caches
mod Bits
mod Trackers
mod Classes
mod Regions
