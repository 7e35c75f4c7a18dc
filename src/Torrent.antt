-- ===== src/Torrent.antt =====
-- src/torrent: the torrents of a session.
pub mod StreamGate
pub mod Resume
pub mod Limits
pub mod MagnetTrackers
use batorrent.Base.{}
