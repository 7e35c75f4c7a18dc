-- ===== src/Downloads/HttpDownload/SavedState.antt =====
-- src/services/downloads/httpdownload.cpp: what is saved of a download, and how it comes back.
use batorrent.Base.{Bool, List, Text, if◌then◌else◌, map, none, ℤ}
use batorrent.Downloads.HttpDownload.Types.{
  State, completed, paused, Segment, HttpDownload, state_is,
}

-- What HttpDownloadManager keeps as JSON; the state's number is taken to be one of the enum.
pub record SavedSegment : Type 0 where
  pub start : ℤ
  pub end : ℤ
  pub received : ℤ

pub record SavedState : Type 0 where
  pub id : Text
  pub url : Text
  pub save_dir : Text
  pub file_name : Text
  pub total : ℤ
  pub accept_ranges : Bool
  pub state : State
  pub segments : List SavedSegment

abbrev pub save_segment : Segment → SavedSegment
save_segment s = record { start = s.range.start; end = s.range.end; received = s.received }

abbrev pub load_segment : SavedSegment → Segment
load_segment v = record {
  range = record { start = v.start; end = v.end };
  received = v.received;
  reply = none;
}

unfoldable pub to_state : HttpDownload → SavedState
to_state d = record {
  id = d.id;
  url = d.url;
  save_dir = d.save_dir;
  file_name = d.file_name;
  total = d.total;
  accept_ranges = d.accept_ranges;
  state = if state_is completed d then completed else paused;
  segments = map save_segment d.segments;
}

unfoldable pub restore_state : SavedState → HttpDownload → HttpDownload
restore_state m d = record d {
  total = m.total;
  accept_ranges = m.accept_ranges;
  state = m.state;
  segments = map load_segment m.segments;
}
