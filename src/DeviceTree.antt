-- ===== src/DeviceTree.antt =====
-- kernel/Hardware/DeviceTree.c, in the order of the parse: the header, the reserved regions, the
-- walk over the structure block, and the whole.
pub mod Types
pub mod Sound
pub mod Header
pub mod Reserved
pub mod Property
pub mod Walk
pub mod Parse
pub mod Encode
