-- ===== src/Lib.antt =====
-- BATorrent, a torrent client with direct downloads, a built-in player and a VPN: the parts of it that
-- decide what happens to files, bytes and traffic, as functions on explicit states.
--
-- The program. An engine process holds the torrents (src/torrent) and talks to the interface process
-- over a socket; the player is a third process, which gets a video's bytes over that socket only
-- (src/ipc). Direct downloads (src/services/downloads) run in the interface process and are shown as
-- rows behind the torrents by an engine that wraps the other one. The VPN (src/services/vpn) is a tunnel
-- that emits signals, and src/app/vpnwiring.cpp turns these into settings of the session, so that the
-- traffic goes through the tunnel or nowhere.
--
-- The files, by the code that they model.
-- - Downloads/RangePlan: src/services/downloads/rangeplan.h. planSegments() is plan_segments with its
--   loop plan_loop, which runs as often as there are segments. Tiling is about where they lie.
-- - Downloads/HttpDownload: httpdownload.h and .cpp. Types has the state: the fields of HttpDownload,
--   its segments, and the disk (the part and the final file, as a size and a function from places to
--   bytes). The module itself has start(), spawnSegment(), beginSegments() and maybeComplete(), Events
--   what replies, the timer and the user make happen, and toState() and restoreState(). A reply is a
--   number; requests and signals are logged. Integrity and its children have the runs and their
--   invariant: World has the steps, with what each reply has brought, and Asked, Requests and Receipts
--   compare that with what was asked for. Sizes has the gate before the final name and servers without
--   a size.
-- - Downloads/Manager: httpdownloadmanager.h and .cpp; wire() is `forward`. Saved: the sidecar file.
-- - Downloads/MergeEngine: httpmergeengine.cpp, over an abstract engine (`Engine`). Commands has the
--   calls that it passes on; Hashes what ties rows and hashes together.
-- - Ipc/Frames: src/ipc/ipcprotocol.h. drainFrames() is drain_frames, its loop drain_loop on fuel: each
--   round takes at least the four bytes of a length, so one more round than there are bytes is enough.
--   Streams and Chunks are about frames in a row and frames in parts.
-- - Ipc/RemoteSource: src/ipc/remotesource.cpp. readData() blocks under a lock; here it is a series of
--   rounds, each of which returns, asks or waits. The loop that drops chunks runs at most once for each.
-- - Ipc/MediaFeed: src/ipc/mediafeed.cpp, the other end. Requests has what asks and what arrives; a reply
--   of the server is a step of the environment. Serving and Keeping are about one call, Run about runs,
--   Reader about the device and the feed together, Polls about the timer.
-- - Ipc/MediaFrame: src/ipc/mediaframe.cpp. A memcpy is the record of what it copies: Packing is about
--   pack(), Unpacking about unpack().
-- - Ipc/Bytes: bytes of a file from some place on, which both ends speak of.
-- - Metadata/MkvChapters: src/services/metadata/mkvchapters.cpp. The module has the numbers and headers,
--   Parse the walks. A walk takes fuel, one more than the bytes that it has left, which Ends shows to be
--   enough, and the walk over the segment its guard of 100,000 rounds; the depth counts down from the
--   levels at which a call still reads. Vint is about numbers, Headers about going forward.
-- - Games/PlayLog and Games/AchievementLedger: playlog.cpp and achievementledger.cpp in
--   src/services/games. Remembered has what may be recorded and what is to be remembered of it, History
--   compares the log with that; Folding is fold().
-- - Discovery/TrackerScrape: src/services/discovery/trackerscrape.cpp, the exchange with each UDP
--   tracker and, in its child Scraper, the scraper over them. Batches, Order, Quiet and Finish
--   follow their runs, Wire has the datagrams, Answered a tracker that answers.
-- - Integrations/GeoIpDb: src/services/integrations/geoipdb.cpp. Lookup compares the binary search with
--   a scan, Loading is about the table of a file, Parsing about addresses.
-- - Security/MediaSniff: src/services/security/mediasniff.cpp. A read of a word past the end is `none`.
--   asfHasLure() walks over objects of 24 bytes or more, so the number of bytes is enough fuel; Lure is
--   about what it finds, Bounds about the places that are read.
-- - Torrent/MagnetTrackers: src/torrent/magnettrackers.h, with the part of sessionmanager_alerts.cpp that
--   takes the trackers back.
-- - Torrent/StreamGate: src/torrent/streamgate.h. The loop of contiguousRun() runs at most once for
--   each piece of the torrent, which is its fuel.
-- - Torrent/Resume: src/torrent/sessionresume.cpp, the rules for names of files, for what is removed
--   with a torrent and for what is forgotten.
-- - Torrent/Limits: sessionmanager_limits.cpp, sessionmanager_scheduler.cpp and bandwidthschedule.h in
--   src/torrent: the normal and the alternative rate limits and their schedule, with the limits applied
--   last. Applied has the runs, Clock the schedule.
-- - Vpn/Manager and Vpn/Profiles: src/services/vpn/vpnmanager.cpp. Each slot and each call is a function;
--   signals and calls of the tunnel are appended to `outputs`. Vpn/Retry: when it tries again.
--   Vpn/Quiet: what it says while the user does not disconnect.
-- - Vpn/Userspace: src/services/vpn/wgtunnel_userspace.cpp, the tunnel that a helper process runs.
--   Lines is about what the helper writes, Run has the events, Ends and Idle follow them.
-- - Vpn/Wiring: src/app/vpnwiring.cpp. KillSwitch runs the VPN together with its handlers; Bound is
--   about a tunnel that is an interface.
-- - Base: numbers, texts and lists that the others share. Tests: runs at fixed inputs.
--
-- Numbers. Sizes and places that the code tests for their sign are integers, others are natural numbers.
-- The 64-bit sums and products stay below 2^63 for files of at most 4 TiB, the largest size that a
-- download takes; the 32-bit casts of lengths in frames and requests are written out.
--
-- Taken as parameters: Qt's paths, URLs, JSON, text-to-number conversion, decoding of UTF-8, calendar,
-- video frames and network; the wrapped engine and libtorrent; parseWireguardConfig(); the
-- lines of the VPN helper; random numbers. A write to disk that fails is taken to leave the file as it was.
--
-- Not modelled: the interface in QML and its bridges, the libtorrent session, the rest of discovery, metadata
-- and the other services, which call libraries and web services for the most part; the file name that a server
-- sends in Content-Disposition (a field of the reply here); the progress values, which are doubles; the
-- timeout of a blocked read; the files of the play log and of the achievements; what a row of a direct download shows.
pub mod Base
pub mod Discovery
pub mod Downloads
pub mod Games
pub mod Integrations
pub mod Ipc
pub mod Metadata
pub mod Security
pub mod Torrent
pub mod Vpn
pub mod Tests
