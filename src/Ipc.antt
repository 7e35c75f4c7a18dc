-- ===== src/Ipc.antt =====
-- src/ipc: the engine and the player as processes of their own.
pub mod Bytes
pub mod Frames
pub mod MediaFeed
pub mod MediaFrame
pub mod RemoteSource
use batorrent.Base.{}
