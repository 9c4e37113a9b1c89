-- ===== src/Cooker.antt =====
-- miio/integrations/chunmi/cooker/cooker.py: rice cookers, whose state and settings are bytes in
-- hexadecimal digits.
pub mod Containers
pub mod Settings
pub mod Flags
pub mod Printed
pub mod Commands
pub mod Status
pub mod Reading
