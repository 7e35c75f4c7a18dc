-- ===== src/Ipc/MediaFeed/Requests.antt =====
-- src/ipc/mediafeed.cpp: requests, and what comes from the server.
use batorrent.Base.{
  Bool, List, Option, Text, [], codes, drop, eq_ℤ, false, if◌then◌else◌, is_empty, is_some, leb,
  leb_ℤ, length, ltb, ltb_ℤ, min, none, pos, pos_part, some, starts_with, suc, take, true, ℕ, ℤ,
  ◌&&◌, ◌++◌, ◌+◌, ◌-◌, ◌==◌, ◌||◌, ◌∷◌,
}
use batorrent.Ipc.MediaFeed.{
  Feed, Pending, Reply, Signal, Answer, bytes_at, refused, window, near_ahead, max_request,
  max_pending, stream_from, serve_pending, refuse_all, buf_end, in_window,
}

-- The guard on a request: the place and the length are the child's word.
abbrev pub is_refused : ℤ → ℤ → Feed → Bool
is_refused offset len s =
    ltb_ℤ s.size (pos 0)
    || ltb_ℤ offset (pos 0)
    || leb_ℤ s.size offset
    || leb_ℤ len (pos 0)
    || ltb_ℤ (pos max_request) len
    || leb max_pending (length s.pending)

-- The request that passed, cut at the end of the file.
abbrev pub accepted : ℕ → ℤ → ℤ → Feed → Pending
accepted id offset len s = record {
  id = id;
  offset = pos_part offset;
  length = min (pos_part len) (pos_part s.size - pos_part offset);
}

unfoldable pub from_file : List ℕ → Pending → Feed → Answer
from_file content p s =
    let bytes = take p.length (drop p.offset content) in
    (s, (if is_empty bytes then refused p.id else bytes_at p.id p.offset bytes) ∷ [])

abbrev pub coming_soon : Feed → Pending → Bool
coming_soon s p =
    is_some s.reply && leb (buf_end s) p.offset && leb p.offset (buf_end s + near_ahead)

unfoldable pub from_stream : Pending → Feed → Answer
unfolding serve_pending stream_from
from_stream p s =
    let t = record s { pending = s.pending ++ p ∷ [] } in
    if in_window s p || coming_soon s p then serve_pending t else (stream_from p.offset t, [])

-- A local file answers at once; a request on a stream waits for its bytes.
unfoldable pub from_source : Option (List ℕ) → Pending → Feed → Answer
unfolding from_file from_stream
from_source none p s = from_stream p s
from_source (some content) p s = from_file content p s

unfoldable pub request : ℕ → ℤ → ℤ → Feed → Answer
unfolding from_source
request id offset len s =
    if is_refused offset len s
    then (s, refused id ∷ [])
    else from_source s.file (accepted id offset len s) s

-- range.indexOf('-'), from place `i` on.
abbrev pub index_of_dash : ℕ → Text → Option ℕ
index_of_dash i [] = none
index_of_dash i (c ∷ cs) = if c == b'-' then some i else index_of_dash (suc i) cs

-- The loop that reads: each read gives what fits or all that is there.
abbrev pub fill : Reply → Feed → Feed
fill r s =
    let room = window - length s.buf in
    record s {
      buf = s.buf ++ take room r.available;
      reply = some (record r {
        available = drop room r.available;
        available_at = r.available_at + length (take room r.available);
      });
    }

module _ (to_long_long : Text → ℤ) where
  abbrev pub range_starts : Text → ℕ → Bool
  range_starts range start = elim (index_of_dash 0 range) [
    | none ↦ false
    | some dash ↦
        starts_with range (codes "bytes ")
        && ltb 6 dash
        && eq_ℤ (to_long_long (take (dash - 6) (drop 6 range))) (pos start)
  ]

  abbrev pub is_at_buffer : Reply → ℕ → Bool
  is_at_buffer r start =
      if r.status == 206 then range_starts r.content_range start else r.status == 200 && start == 0

  -- A reply that starts elsewhere is dropped, and every request is refused.
  unfoldable pub reply_starts_at_buffer : Reply → Feed → Bool × Feed × List Signal
  reply_starts_at_buffer r s =
      if s.reply_checked
      then (true, s, [])
      else if is_at_buffer r s.buf_start
      then (true, record s { reply_checked = true }, [])
      else (false, record s { reply = none; pending = [] }, refuse_all s.pending)

  unfoldable pub take_data : Option Reply → Feed → Answer
  unfolding reply_starts_at_buffer serve_pending
  take_data none s = (s, [])
  take_data (some r) s =
      let (starts, t, out) = reply_starts_at_buffer r s in
      if starts then serve_pending (fill r t) else (t, out)

  unfoldable pub on_http_data : Feed → Answer
  unfolding take_data
  on_http_data s = take_data s.reply s

  -- The call that was queued.
  unfoldable pub on_queued : Feed → Answer
  unfolding on_http_data
  on_queued s = if s.queued then on_http_data (record s { queued = false }) else (s, [])
