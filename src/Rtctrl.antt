-- ===== src/Rtctrl.antt =====
-- The control client of src/rtctrl.
pub mod Param
pub mod Request
pub mod Choice
pub mod Response
pub mod Arguments
pub mod Commands
pub mod Dumps
