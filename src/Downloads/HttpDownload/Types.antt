-- ===== src/Downloads/HttpDownload/Types.antt =====
-- src/services/downloads/httpdownload.h: the state of one download, with the disk and the network
-- that it works on. The disk is part of the state; replies are numbers, handed out in order, and
-- `requests` and `signals` log what was asked of the network and what was emitted, newest first.
use batorrent.Base.{
  Bool, List, Option, Text, [], codes, false, if◌then◌else◌, is_empty, leb_ℤ, negsuc, none, pos,
  true, ℕ, ℤ, ◌&&◌, ◌++◌, ◌+ℤ◌, ◌==◌, ◌∷◌,
}
use batorrent.Downloads.RangePlan.{ByteRange, size}

pub data State : Type 0 where
  queued probing downloading paused completed failed : State

-- int(state)
abbrev pub rank : State → ℕ
rank queued = 0
rank probing = 1
rank downloading = 2
rank paused = 3
rank completed = 4
rank failed = 5

-- The texts given to fail(): each constructor is one message.
pub data Failure : Type 0 where
  none_yet : Failure
  network : Text → Failure
  cannot_open disk_write_failed segment_overrun stalled cannot_finalize : Failure
  size_mismatch : ℤ → ℤ → Failure

pub record Segment : Type 0 where
  pub range : ByteRange
  pub received : ℤ
  pub reply : Option ℕ

unfoldable pub done : Segment → Bool
done s = leb_ℤ (size s.range) s.received

-- A GET: its reply, the segment that it is for and the two numbers of its Range header.
pub record Request : Type 0 where
  pub handle : ℕ
  pub segment : Option ℕ
  pub range : Option (ℤ × ℤ)

pub data Signal : Type 0 where
  state_changed progressed : Signal
  finished : Bool → Signal

pub record File : Type 0 where
  pub size_bytes : ℕ
  pub byte_at : ℕ → ℕ

-- The two names of the download: finalPath() and partPath().
pub record Disk : Type 0 where
  pub part : Option File
  pub final : Option File

pub record HttpDownload : Type 0 where
  pub id : Text
  pub url : Text
  pub save_dir : Text
  pub file_name : Text
  pub state : State
  pub total : ℤ
  pub accept_ranges : Bool
  pub error : Failure
  pub file_open : Bool
  pub segments : List Segment
  pub conns : ℤ
  pub probe : Option ℕ
  pub sampling : Bool
  pub last_sampled : ℤ
  pub rate : ℤ
  pub last_progress : ℕ
  pub stall_retried : Bool
  pub next_reply : ℕ
  pub requests : List Request
  pub signals : List Signal
  pub disk : Disk

-- What the file system answers during one call: to the opening of the part, to the removal of what
-- has the final name, if there is something, and to the renaming, which may fail for either.
pub record Answers : Type 0 where
  pub open_succeeds : Bool
  pub remove_succeeds : Bool
  pub rename_succeeds : Bool

abbrev pub state_is : State → HttpDownload → Bool
state_is s d = rank d.state == rank s

unfoldable pub received_bytes : List Segment → ℤ
received_bytes [] = pos 0
received_bytes (s ∷ ss) = s.received +ℤ received_bytes ss

unfoldable pub all_done : List Segment → Bool
all_done [] = true
all_done (s ∷ ss) = done s && all_done ss

-- The constructor; `path_name` is QFileInfo(url.path()).fileName().
unfoldable pub create : (id url save_dir file_name path_name : Text) → Disk → HttpDownload
create id url save_dir file_name path_name disk = record {
  id = id;
  url = url;
  save_dir = save_dir;
  file_name =
      if is_empty file_name
      then (if is_empty path_name then codes "download-" ++ id else path_name)
      else file_name;
  state = queued;
  total = negsuc 0;
  accept_ranges = false;
  error = none_yet;
  file_open = false;
  segments = [];
  conns = pos 4;
  probe = none;
  sampling = false;
  last_sampled = pos 0;
  rate = pos 0;
  last_progress = 0;
  stall_retried = false;
  next_reply = 0;
  requests = [];
  signals = [];
  disk = disk;
}
