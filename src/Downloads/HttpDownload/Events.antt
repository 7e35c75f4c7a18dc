-- ===== src/Downloads/HttpDownload/Events.antt =====
-- src/services/downloads/httpdownload.cpp: what the network, the timer and the user make happen to a
-- download. A failed write is taken to leave the file as it was.
use batorrent.Base.{
  Bool, List, Option, Text, [], codes, false, get_elem?, get_or, if◌then◌else◌, is_empty, is_some,
  leb, leb_ℤ, length, ltb, ltb_ℤ, map, max, negsuc, none, not, pos, set, some, starts_with, text_eq,
  trimmed, true, ℕ, ℤ, ◌&&◌, ◌+ℤ◌, ◌+◌, ◌-ℤ◌, ◌-◌, ◌==◌, ◌^◌, ◌||◌, ◌∷◌,
}
use mathlib.Core.Option
use batorrent.Downloads.RangePlan.{ByteRange, plan_segments}
use batorrent.Downloads.HttpDownload.Types.{
  probing, downloading, paused, failed, network, disk_write_failed, segment_overrun, stalled,
  Segment, done, progressed, File, Disk, HttpDownload, Answers, state_is, received_bytes,
}
use batorrent.Downloads.HttpDownload.{
  emit, set_state, abort_replies, fail, spawn_where, maybe_complete, begin_segments, start,
}

-- 4 TiB, the largest size that a server may claim.
abbrev pub max_total : ℤ
max_total = pos (2 ^ 42)

-- The reply to the probe. `disposition_name` is what fileNameFromReply finds, `content_length` the
-- header as a number, if it is one.
pub record ProbeReply : Type 0 where
  pub error : Option Text
  pub status : ℕ
  pub has_disposition : Bool
  pub disposition_name : Text
  pub content_range : Text
  pub content_length : Option ℤ

-- What follows the last slash.
unfoldable pub after_last_slash : Text → Option Text
after_last_slash [] = none
after_last_slash (c ∷ s) = elim (after_last_slash s) [
  | none ↦ if c == b'/' then some s else none
  | some tail ↦ some tail
]

abbrev pub in_limits : Option ℤ → ℤ
in_limits none = negsuc 0
in_limits (some v) = if ltb_ℤ (pos 0) v && leb_ℤ v max_total then v else negsuc 0

-- -1 where the header gives no usable size.
unfoldable pub total_from_content_range : (Text → Option ℤ) → Text → ℤ
unfolding after_last_slash
total_from_content_range to_long_long header = elim (after_last_slash header) [
  | none ↦ negsuc 0
  | some rest ↦
      let tail = trimmed rest in
      if text_eq tail (codes "*") || is_empty tail then negsuc 0 else in_limits (to_long_long tail)
]

abbrev pub fresh : ByteRange → Segment
fresh r = record { range = r; received = pos 0; reply = none }

-- One stream: to the last byte if the size is known, and to -1 if not.
abbrev pub one_stream : ℤ → Segment
one_stream total =
    fresh (record { start = pos 0; end = if ltb_ℤ (pos 0) total then total -ℤ pos 1 else negsuc 0 })

unfoldable pub renamed : ProbeReply → HttpDownload → HttpDownload
renamed r d =
    if r.has_disposition
      && starts_with d.file_name (codes "download-")
      && not (is_empty r.disposition_name)
    then record d { file_name = r.disposition_name }
    else d

-- A 206 has the size in Content-Range; any other answer has it, if at all, in Content-Length.
unfoldable pub probed_total : (Text → Option ℤ) → ProbeReply → ℤ
unfolding total_from_content_range
probed_total to_long_long r =
    if r.status == 206
    then total_from_content_range to_long_long r.content_range
    else in_limits r.content_length

-- The segments that follow from the size and from whether ranges are served.
unfoldable pub lay_out : Bool → ℤ → HttpDownload → HttpDownload
lay_out ranged total d = record d {
  accept_ranges = ranged;
  total = total;
  segments =
      if ranged && ltb_ℤ (pos 0) total
      then map fresh (plan_segments total d.conns)
      else one_stream total ∷ [];
}

unfoldable pub on_probe_finished :
    (Text → Option ℤ) → ProbeReply → Answers → HttpDownload → HttpDownload
unfolding fail begin_segments renamed probed_total lay_out
on_probe_finished to_long_long r env d = elim d.probe [
  | none ↦ d
  | some _ ↦ elim r.error [
    | some why ↦ fail (network why) (record d { probe = none })
    | none ↦ begin_segments env (
        lay_out (r.status == 206) (probed_total to_long_long r)
          (renamed r (record d { probe = none })))
  ]
]

-- seek() and write().
unfoldable pub write_at : ℕ → List ℕ → File → File
write_at at bytes f = record {
  size_bytes = max f.size_bytes (at + length bytes);
  byte_at =
      λ x. if leb at x && ltb x (at + length bytes) then get_or bytes (x - at) 0 else f.byte_at x;
}

abbrev pub write_part : ℤ → List ℕ → Disk → Disk
write_part (negsuc n) bytes disk = disk
write_part (pos at) bytes disk = record disk { part = Option.map (write_at at bytes) disk.part }

abbrev pub is_negative : ℤ → Bool
is_negative v = ltb_ℤ v (pos 0)

unfoldable pub received_chunk : ℕ → List ℕ → Segment → HttpDownload → HttpDownload
unfolding fail write_at
received_chunk i chunk s d =
    let s' : Segment = record s { received = s.received +ℤ pos (length chunk) } in
    let d' : HttpDownload = record d {
      disk = write_part (s.range.start +ℤ s.received) chunk d.disk;
      segments = set d.segments i s';
    } in
    if leb_ℤ (pos 0) s.range.end && ltb_ℤ (s.range.end +ℤ pos 1) (s.range.start +ℤ s'.received)
    then fail segment_overrun d'
    else d'

-- `i` is the segIdx of the reply, `chunk` what readAll() returns.
unfoldable pub on_segment_ready_read : ℕ → List ℕ → Bool → HttpDownload → HttpDownload
unfolding received_chunk fail
on_segment_ready_read i chunk written d = elim (get_elem? d.segments i) [
  | none ↦ d
  | some s ↦
      if not (state_is downloading d) || is_empty chunk
      then d
      else if not written || is_negative (s.range.start +ℤ s.received)
      then fail disk_write_failed d
      else received_chunk i chunk s d
]

-- The total of a stream of unknown size is what arrived.
unfoldable pub settle_total : ℕ → Segment → HttpDownload → HttpDownload
settle_total i s d =
    if leb_ℤ d.total (pos 0) && is_negative s.range.end
    then record d {
      total = s.received;
      segments =
          set d.segments i
            (record s { reply = none; range = record s.range { end = s.received -ℤ pos 1 } });
    }
    else d

abbrev pub waits_for : Option ℕ → ℕ → Bool
waits_for none r = false
waits_for (some h) r = h == r

-- `r` is the reply that finished; one that the segment no longer waits for is stale.
unfoldable pub on_segment_finished : ℕ → ℕ → Option Text → Answers → HttpDownload → HttpDownload
unfolding fail settle_total maybe_complete
on_segment_finished i r error env d = elim (get_elem? d.segments i) [
  | none ↦ d
  | some s ↦
      let d' : HttpDownload = record d {
        segments = set d.segments i (record s { reply = none });
      } in
      if not (waits_for s.reply r)
      then d
      else if not (state_is downloading d)
      then d'
      else elim error [
        | some why ↦ fail (network why) d'
        | none ↦ maybe_complete env (settle_total i s d')
      ]
]

-- 30 s without progress is a stall.
abbrev stall_ms : ℕ
stall_ms = 30000

abbrev pub idle : Segment → Bool
idle s = not (is_some s.reply) && not (done s)

-- What the timer does about a download that makes no progress: one new try, then it fails.
unfoldable pub check_stall : ℕ → HttpDownload → HttpDownload
unfolding spawn_where fail
check_stall elapsed d =
    if state_is downloading d && ltb (d.last_progress + stall_ms) elapsed
    then (if d.stall_retried
        then fail stalled d
        else spawn_where idle (length d.segments) 0
            (record d { stall_retried = true; last_progress = elapsed }))
    else d

unfoldable pub sampled : ℕ → HttpDownload → HttpDownload
sampled elapsed d =
    let now = received_bytes d.segments in
    let rate = now -ℤ d.last_sampled in
    emit progressed (record d {
      rate = rate;
      last_progress = if ltb_ℤ (pos 0) rate then elapsed else d.last_progress;
      last_sampled = now;
    })

-- The timer's second, `elapsed` ms after start().
unfoldable pub sample : ℕ → HttpDownload → HttpDownload
unfolding sampled check_stall
sample elapsed d = check_stall elapsed (sampled elapsed d)

unfoldable pub pause : HttpDownload → HttpDownload
unfolding set_state abort_replies
pause d =
    if not (state_is downloading d) && not (state_is probing d)
    then d
    else emit progressed
        (set_state paused (record (abort_replies d) { sampling = false; rate = pos 0 }))

unfoldable pub resume : Answers → HttpDownload → HttpDownload
unfolding start
resume env d = if not (state_is paused d) && not (state_is failed d) then d else start env d

unfoldable pub cancel : Bool → HttpDownload → HttpDownload
unfolding abort_replies
cancel delete_partial d = record (abort_replies d) {
  file_open = false;
  sampling = false;
  disk = if delete_partial then record d.disk { part = none } else d.disk;
}
