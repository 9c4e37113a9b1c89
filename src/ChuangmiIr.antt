-- ===== src/ChuangmiIr.antt =====
-- miio/integrations/chuangmi/remote/chuangmi_ir.py: an infrared remote, and the signals it plays.
pub mod Backend
pub mod Pronto
pub mod Signal
pub mod Times
pub mod Decoding
pub mod RoundTrip
pub mod Converting
pub mod Limits
pub mod Texts
pub mod Commands
pub mod HexCommands
pub mod Playing
