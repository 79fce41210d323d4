-- ===== src/Driver.antt =====
-- The software driver, src/ioHdlcswdriver.c.
pub mod Field
pub mod FrameFormat
pub mod Configure
pub mod Receive
pub mod Line
pub mod Assembly
pub mod Wire
pub mod Frames
pub mod Send
pub mod Buffer
pub mod RoundTrip
pub mod Sent
pub mod Exchange
pub mod Bounds
pub mod Pipeline
