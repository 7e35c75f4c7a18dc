-- ===== src/Downloads/HttpDownload.antt =====
-- src/services/downloads/httpdownload.cpp: the operations of one download. Timers are calls with
-- the time on the clock, and a reply's signals are calls with what the network delivered.
pub mod Types
pub mod Events
pub mod SavedState
pub mod Integrity
pub mod Sizes
use batorrent.Base.{
  Bool, Option, eq_ℤ, false, get_elem?, if◌then◌else◌, is_empty, is_some, leb_ℤ, length, ltb, ltb_ℤ,
  map, none, not, pos, pos_part, set, some, suc, true, zero, ℕ, ℤ, ◌&&◌, ◌+ℤ◌, ◌||◌, ◌∷◌,
}
use batorrent.Downloads.RangePlan.{ByteRange, size, plan_segments}
use Types.{
  State, queued, probing, downloading, paused, completed, failed, rank, Failure, none_yet, network,
  cannot_open, disk_write_failed, segment_overrun, stalled, cannot_finalize, size_mismatch, Segment,
  done, Request, Signal, state_changed, progressed, finished, File, Disk, HttpDownload, Answers,
  state_is, received_bytes, all_done,
}

abbrev emit : Signal → HttpDownload → HttpDownload
emit s d = record d { signals = s ∷ d.signals }

unfoldable pub set_state : State → HttpDownload → HttpDownload
set_state s d = if state_is s d then d else emit state_changed (record d { state = s })

abbrev drop_reply : Segment → Segment
drop_reply s = record s { reply = none }

-- abort() makes the reply finish at once, while its slot is empty already: that call is stale.
unfoldable pub abort_replies : HttpDownload → HttpDownload
abort_replies d = record d { probe = none; segments = map drop_reply d.segments }

unfoldable pub fail : Failure → HttpDownload → HttpDownload
unfolding abort_replies set_state
fail why d = emit (finished false) (
    set_state failed
      (record (abort_replies d) { error = why; file_open = false; sampling = false }))

-- A range is asked for when the server takes ranges and the end is known.
abbrev wanted_range : HttpDownload → Segment → Option (ℤ × ℤ)
wanted_range d s =
    if d.accept_ranges && leb_ℤ (pos 0) s.range.end
    then some (s.range.start +ℤ s.received, s.range.end)
    else none

unfoldable pub spawn_segment : ℕ → HttpDownload → HttpDownload
spawn_segment i d = elim (get_elem? d.segments i) [
  | none ↦ d
  | some s ↦ if is_some s.reply || done s then d else record d {
    segments = set d.segments i (record s { reply = some d.next_reply });
    next_reply = suc d.next_reply;
    requests =
        record { handle = d.next_reply; segment = some i; range = wanted_range d s } ∷ d.requests;
  }
]

-- The loops over m_segments from segment `i` on: those that pass the test are asked for.
unfoldable pub spawn_where : (Segment → Bool) → ℕ → ℕ → HttpDownload → HttpDownload
spawn_where test zero i d = d
spawn_where test (suc left) i d =
    spawn_where test left (suc i) (elim (get_elem? d.segments i) [
      | none ↦ d
      | some s ↦ if test s then spawn_segment i d else d
    ])

-- What is left of the file when the download is over: the part takes the final name, in the place
-- of an older file. A part that is not there cannot be renamed.
unfoldable pub finalize : Answers → HttpDownload → HttpDownload
unfolding fail set_state
finalize env d =
    if env.rename_succeeds && is_some d.disk.part
    then emit (finished true) (
        emit progressed (
          set_state completed (record d {
            sampling = false;
            rate = pos 0;
            disk = record { part = none; final = d.disk.part };
          })))
    else fail cannot_finalize (record d {
      disk = record d.disk { final = if env.remove_succeeds then none else d.disk.final };
    })

unfoldable pub maybe_complete : Answers → HttpDownload → HttpDownload
unfolding fail
maybe_complete env d =
    let got = received_bytes d.segments in
    let closed : HttpDownload = record d { file_open = false } in
    if all_done d.segments
    then (if ltb_ℤ (pos 0) d.total && not (eq_ℤ got d.total)
        then fail (size_mismatch got d.total) closed
        else finalize env closed)
    else d

-- resize(): what is new is zero.
unfoldable pub resize : ℕ → File → File
resize n f = record { size_bytes = n; byte_at = λ x. if ltb x f.size_bytes then f.byte_at x else 0 }

abbrev opened_part : Option File → File
opened_part none = record { size_bytes = 0; byte_at = λ x. 0 }
opened_part (some f) = f

-- Opening for reading and writing makes the file if it is not there.
unfoldable pub open_part : HttpDownload → HttpDownload
unfolding resize
open_part d =
    let f = opened_part d.disk.part in
    record d {
      file_open = true;
      disk = record d.disk {
        part = some (
            if ltb_ℤ (pos 0) d.total && not (eq_ℤ (pos f.size_bytes) d.total)
            then resize (pos_part d.total) f
            else f);
      };
    }

abbrev not_done : Segment → Bool
not_done s = not (done s)

unfoldable pub enter_downloading : HttpDownload → HttpDownload
unfolding set_state
enter_downloading d = record (set_state downloading d) { stall_retried = false; sampling = true }

unfoldable pub begin_opened : Answers → HttpDownload → HttpDownload
unfolding enter_downloading spawn_where maybe_complete
begin_opened env d =
    let d' = enter_downloading d in
    maybe_complete env (spawn_where not_done (length d'.segments) 0 d')

unfoldable pub begin_segments : Answers → HttpDownload → HttpDownload
unfolding begin_opened open_part fail
begin_segments env d =
    if d.file_open
    then begin_opened env d
    else if env.open_succeeds
    then begin_opened env (open_part d)
    else fail cannot_open d

-- The first request, for one byte: its answer says whether ranges are served, and the size.
unfoldable pub ask_probe : HttpDownload → HttpDownload
ask_probe p = record p {
  probe = some p.next_reply;
  next_reply = suc p.next_reply;
  requests =
      record { handle = p.next_reply; segment = none; range = some (pos 0, pos 0) } ∷ p.requests;
}

-- The first call also makes the timer; only whether it runs is state.
unfoldable pub start : Answers → HttpDownload → HttpDownload
unfolding begin_segments set_state ask_probe
start env d =
    let d' : HttpDownload = record d {
      error = none_yet;
      last_progress = 0;
      last_sampled = received_bytes d.segments;
    } in
    if state_is downloading d || state_is probing d
    then d
    else if ltb_ℤ (pos 0) d.total && not (is_empty d.segments)
    then begin_segments env d'
    else ask_probe (set_state probing d')
