-- ===== src/Elements.antt =====
-- The elements that the consoles share (C Reversed/elements): what is sent of each, in full or as the
-- difference to a state that the other side has.
mod Mask
mod Section
mod Unset
pub mod Types
pub mod Blip
mod Tests
pub mod Pickup
pub mod Physical
pub mod Object
pub mod History
