-- ===== src/Tests/Media.antt =====
-- Runs of the media child's side of src/ipc at fixed inputs.
use mathlib.Core.Option
use batorrent.Base.{
  All, List, Option, Text, [], arith, codes, eq_ℤ, false, if◌then◌else◌, is_some, map, negsuc, none,
  pos, refl, some, starts_with, suc, true, zero, ℕ, ℤ, ◌∷◌, ◌≡◌,
}
use batorrent.Ipc.Bytes.{AreAt}
use batorrent.Ipc.MediaFrame.{
  Plane, FrameHeader, MappedPlane, VideoFrame, Copy, PixelFormat, nv12, unpack, Unpacked, pack,
  packed, pack_planes,
}
use batorrent.Ipc.MediaFrame.Packing.{LieApart, pack-LieApart}
use batorrent.Ipc.MediaFrame.Unpacking.{InBounds, unpack-InBounds}
use batorrent.Ipc.MediaFeed.{Feed, Pending, Reply, media_feed, head_finished, bytes_at}
use batorrent.Ipc.MediaFeed.Requests.{request, on_http_data}
use batorrent.Ipc.MediaFeed.Run
use batorrent.Ipc.MediaFeed.Run.{Opened, Reach, Step}
use batorrent.Ipc.MediaFeed.Reader
use batorrent.Ipc.MediaFeed.Reader.{Player, Plays, receive, player-RoundIsRight}
use batorrent.Ipc.RemoteSource.{returns, remote_source, read_round, answer_bytes}
use batorrent.Ipc.RemoteSource.Reads.{RoundIsRight}

-- A frame of 4 by 2 in NV12: two planes of rows of 4.
abbrev small_frame : VideoFrame
small_frame = record {
  pixel_format = pos 18;
  width = pos 4;
  height = pos 2;
  start_time = pos 0;
  end_time = pos 40;
  planes =
      record { bytes_per_line = pos 4; mapped_bytes = 8 }
      ∷ record { bytes_per_line = pos 4; mapped_bytes = 4 }
      ∷ [];
}

abbrev no_plane : Plane
no_plane = record { stride = pos 0; offset = pos 0; bytes = pos 0 }

abbrev empty_header : FrameHeader
empty_header = record {
  slot = negsuc 0;
  pixel_format = pos 0;
  width = pos 0;
  height = pos 0;
  start_us = negsuc 0;
  end_us = negsuc 0;
  plane_count = pos 0;
  planes = no_plane ∷ no_plane ∷ no_plane ∷ no_plane ∷ [];
}

abbrev all_nv12 : ℤ → PixelFormat
all_nv12 f = nv12

abbrev small_header : FrameHeader
small_header = (packed small_frame empty_header).0

abbrev small_copies : List Copy
small_copies = (packed small_frame empty_header).1

packs : pack small_frame true (pos 128) empty_header ≡ some (small_header, small_copies)
unfolding pack
packs = refl

packs_not : pack small_frame true (pos 127) empty_header ≡ none
unfolding pack
packs_not = refl

pack-LieApart_example : LieApart 128 0 small_copies
pack-LieApart_example = pack-LieApart small_frame true (pos 128) empty_header packs

abbrev allocated : ℤ → ℤ → ℤ → Option (List MappedPlane)
allocated w h f = some small_frame.planes

abbrev row : ℕ → ℕ → ℕ → Copy
row plane to from = record { plane = plane; to = to; from = from; size = 4 }

abbrev rows : List Copy
rows = row 0 0 0 ∷ row 0 4 4 ∷ row 1 0 64 ∷ []

abbrev given : Unpacked
given = record { frame = some small_frame; mapped = small_frame.planes; copies = rows }

unpacks : unpack all_nv12 allocated small_header true (pos 128) ≡ given
unfolding unpack pack_planes
unpacks = refl

-- A second plane of a single byte: the first one has been copied by then.
abbrev cut_header : FrameHeader
cut_header = record small_header {
  planes =
      map (λ p. if eq_ℤ p.offset (pos 0) then p else record p { bytes = pos 1 })
        small_header.planes;
}

unpacks_half :
    unpack all_nv12 allocated cut_header true (pos 128)
    ≡ record { frame = none; mapped = small_frame.planes; copies = row 0 0 0 ∷ row 0 4 4 ∷ [] }
unfolding unpack pack_planes
unpacks_half = refl

abbrev half_unpacked : Unpacked
half_unpacked = unpack all_nv12 allocated cut_header true (pos 128)

unpack-InBounds_example :
    All (InBounds half_unpacked.mapped 128) half_unpacked.copies
    × (Option.map (λ f. f.planes) half_unpacked.frame
        ≡ (if is_some half_unpacked.frame then some half_unpacked.mapped else none))
unpack-InBounds_example = unpack-InBounds all_nv12 allocated cut_header true (pos 128)

-- A stream of 100,000 bytes, all 5, from a server that honours ranges; numbers are read as 7.
abbrev fives : ℕ → ℕ
fives x = 5

abbrev seven : Text → ℤ
seven t = pos 7

abbrev told : Feed
told = (head_finished false (pos 100000) media_feed).0

abbrev asked : Feed
asked = (request 1 (pos 7) (pos 3) told).0

abbrev partial : Text
partial = codes "bytes 7-99999/100000"

abbrev headed : Reply
headed = record {
  status = 206;
  content_range = partial;
  available = [];
  available_at = 7;
  is_finished = false;
}

abbrev with_reply : Reply → Feed → Feed
with_reply r s = record s { reply = some r }

abbrev arrived : Feed
arrived = with_reply (record headed { available = 5 ∷ 5 ∷ 5 ∷ 5 ∷ [] }) asked

serves_three : (on_http_data seven arrived).1 ≡ bytes_at 1 7 (5 ∷ 5 ∷ 5 ∷ []) ∷ []
unfolding on_http_data request head_finished media_feed starts_with
serves_three = refl

all_five : (at : ℕ) → AreAt fives at (5 ∷ 5 ∷ 5 ∷ 5 ∷ [])
all_five at zero h = refl
all_five at (suc zero) h = refl
all_five at (suc (suc zero)) h = refl
all_five at (suc (suc (suc zero))) h = refl
all_five at (suc (suc (suc (suc k)))) h = absurd (omega arith)

opened : Opened fives seven told
opened = Run.stream (pos 100000)

starts_at_seven : Run.IsHonest fives seven 206 partial 7
unfolding starts_with
starts_at_seven = (λ e. absurd (omega (arith, e)), λ e n h. ground arith)

arrives : Reach fives seven told arrived
unfolding request head_finished media_feed
arrives =
    Run.next
      (Run.next (Run.next Run.here (Run.asks 1 (pos 7) (pos 3) told)) (
        Run.headers asked (record headed { status = 0; content_range = []; available_at = 0 }) 206 7
          partial refl refl refl starts_at_seven))
      (Run.arrives (with_reply headed asked) headed (5 ∷ 5 ∷ 5 ∷ 5 ∷ []) refl (all_five 7))

abbrev playing : Player
playing = record { device = remote_source told.size; feed = told; sent = [] }

-- The device asks for the place 7, the feed is asked for three bytes, and gets them.
abbrev has_read : Player
has_read = record playing { device = (read_round 7 3 playing.device).1 }

abbrev answered : Player
answered = record has_read {
  feed = (on_http_data seven arrived).0;
  sent = bytes_at 1 7 (5 ∷ 5 ∷ 5 ∷ []) ∷ [];
}

abbrev received : Player
received = record answered {
  device = receive (bytes_at 1 7 (5 ∷ 5 ∷ 5 ∷ [])) answered.device;
  sent = [];
}

plays : Plays fives seven playing received
unfolding request head_finished media_feed on_http_data starts_with
plays =
    Reader.next
      (Reader.next
        (Reader.next
          (Reader.next
            (Reader.next (Reader.next Reader.here (Reader.reads 7 3 playing))
              (Reader.feeds has_read (Run.asks 1 (pos 7) (pos 3) told)))
            (Reader.feeds (record has_read { feed = asked })
              (Run.headers asked
                (record headed { status = 0; content_range = []; available_at = 0 }) 206 7 partial
                refl refl refl starts_at_seven)))
          (Reader.feeds (record has_read { feed = with_reply headed asked })
            (Run.arrives (with_reply headed asked) headed (5 ∷ 5 ∷ 5 ∷ 5 ∷ []) refl (all_five 7))))
        (Reader.feeds (record has_read { feed = arrived }) (Run.polls arrived)))
      (Reader.receives answered (bytes_at 1 7 (5 ∷ 5 ∷ 5 ∷ [])) [] refl)

-- The round returns what has come.
returns_three : (read_round 7 3 received.device).0 ≡ returns (5 ∷ 5 ∷ 5 ∷ [])
unfolding read_round receive remote_source answer_bytes head_finished
returns_three = refl

player-RoundIsRight_example : RoundIsRight fives 7 3 received.device.size (returns (5 ∷ 5 ∷ 5 ∷ []))
unfolding read_round receive remote_source answer_bytes head_finished
player-RoundIsRight_example = player-RoundIsRight fives seven told received 7 3 opened plays

-- The reply ended before the place that is asked for.
abbrev short : Feed
short = with_reply (record headed { is_finished = true }) (record asked { pulling = true })

abbrev first_request : Pending
first_request = record { id = 1; offset = 7; length = 3 }
