-- ===== src/Ipc/MediaFrame.antt =====
-- src/ipc/mediaframe.h and .cpp, and the header of src/ipc/mediaprotocol.h: a decoded frame that
-- crosses a slot of shared memory. A memcpy is the record of what it copies. The frames of Qt are
-- arguments: what a mapped frame reports of its planes, and what a frame reports that is allocated
-- for a size and a format.
pub mod Packing
pub mod Unpacking
use batorrent.Base.{
  Bool, List, Option, [], drop, eq_ℤ, false, if◌then◌else◌, leb_ℤ, length, ltb, ltb_ℤ, min, none,
  not, pos, pos_part, some, suc, take, true, zero, ℕ, ℤ, ◌&&◌, ◌*◌, ◌++◌, ◌+◌, ◌-ℤ◌, ◌-◌, ◌/◌, ◌==◌,
  ◌||◌, ◌∷◌,
}

abbrev pub max_planes : ℕ
max_planes = 4

abbrev pub max_dimension : ℕ
max_dimension = 8192

pub record Plane : Type 0 where
  pub stride : ℤ
  pub offset : ℤ
  pub bytes : ℤ

-- The array of planes is a list; a header holds four.
pub record FrameHeader : Type 0 where
  pub slot : ℤ
  pub pixel_format : ℤ
  pub width : ℤ
  pub height : ℤ
  pub start_us : ℤ
  pub end_us : ℤ
  pub plane_count : ℤ
  pub planes : List Plane

-- A mapped QVideoFrame: bytesPerLine and mappedBytes of each plane.
pub record MappedPlane : Type 0 where
  pub bytes_per_line : ℤ
  pub mapped_bytes : ℕ

pub record VideoFrame : Type 0 where
  pub pixel_format : ℤ
  pub width : ℤ
  pub height : ℤ
  pub start_time : ℤ
  pub end_time : ℤ
  pub planes : List MappedPlane

abbrev pub aligned : ℕ → ℕ
aligned n = (n + 63) / 64 * 64

-- The loop of packedSize over the planes, from `total` on.
unfoldable pub packed_loop : ℕ → List MappedPlane → ℕ
packed_loop total [] = total
packed_loop total (p ∷ ps) = packed_loop (aligned total + p.mapped_bytes) ps

unfoldable pub packed_size : VideoFrame → ℕ
unfolding packed_loop
packed_size mapped = aligned (packed_loop 0 (take max_planes mapped.planes))

-- memcpy(slot + to, bits + from, size) of a plane.
pub record Copy : Type 0 where
  pub plane : ℕ
  pub to : ℕ
  pub from : ℕ
  pub size : ℕ

-- The planes of the header, and the copies, from the `i`-th plane on.
unfoldable pub pack_planes : ℕ → ℕ → List MappedPlane → List Plane × List Copy
pack_planes i offset [] = ([], [])
pack_planes i offset (m ∷ ms) =
    let at = aligned offset in
    let (planes, copies) = pack_planes (suc i) (at + m.mapped_bytes) ms in
    (
      record { stride = m.bytes_per_line; offset = pos at; bytes = pos m.mapped_bytes } ∷ planes,
      record { plane = i; to = at; from = 0; size = m.mapped_bytes } ∷ copies,
    )

-- The header with what pack() fills in; the planes past the count stay as they are.
abbrev pub filled : VideoFrame → List Plane → FrameHeader → FrameHeader
filled mapped planes hdr = record hdr {
  pixel_format = mapped.pixel_format;
  width = mapped.width;
  height = mapped.height;
  start_us = mapped.start_time;
  end_us = mapped.end_time;
  plane_count = pos (length mapped.planes);
  planes = planes ++ drop (length mapped.planes) hdr.planes;
}

abbrev pub packed : VideoFrame → FrameHeader → FrameHeader × List Copy
packed mapped hdr =
    let (planes, copies) = pack_planes 0 0 mapped.planes in (filled mapped planes hdr, copies)

-- `none` for false; `has_slot` tells that the slot's pointer is not null.
unfoldable pub pack : VideoFrame → Bool → ℤ → FrameHeader → Option (FrameHeader × List Copy)
unfolding pack_planes packed_size
pack mapped has_slot slot_bytes hdr =
    if not has_slot
      || length mapped.planes == 0
      || ltb max_planes (length mapped.planes)
      || ltb_ℤ slot_bytes (pos (packed_size mapped))
    then none
    else some (packed mapped hdr)

-- The formats that the switch names, and any other.
pub data PixelFormat : Type 0 where
  argb8888 argb8888_premultiplied xrgb8888 bgra8888 bgra8888_premultiplied bgrx8888 : PixelFormat
  abgr8888 xbgr8888 rgba8888 rgbx8888 yuv420p yuv422p yv12 uyvy yuyv nv12 nv21 p010 p016 :
      PixelFormat
  yuv420p10 y8 y16 : PixelFormat
  other : ℤ → PixelFormat

abbrev pub is_named : PixelFormat → Bool
is_named (other n) = false
is_named named = true

abbrev pub size_fits : FrameHeader → Bool
size_fits hdr = not (
    leb_ℤ hdr.width (pos 0)
    || leb_ℤ hdr.height (pos 0)
    || ltb_ℤ (pos max_dimension) hdr.width
    || ltb_ℤ (pos max_dimension) hdr.height)

abbrev pub count_fits : FrameHeader → ℤ → Bool
count_fits hdr slot_bytes = not (
    leb_ℤ hdr.plane_count (pos 0)
    || ltb_ℤ (pos max_planes) hdr.plane_count
    || leb_ℤ slot_bytes (pos 0))

abbrev pub plane_fits : Plane → ℤ → Bool
plane_fits p slot_bytes = not (
    leb_ℤ p.stride (pos 0)
    || ltb_ℤ p.offset (pos 0)
    || leb_ℤ p.bytes (pos 0)
    || ltb_ℤ slot_bytes p.offset
    || ltb_ℤ (slot_bytes -ℤ p.offset) p.bytes)

unfoldable pub planes_fit : List Plane → ℤ → Bool
unfolding ◌-ℤ◌
planes_fit [] slot_bytes = true
planes_fit (p ∷ ps) slot_bytes = plane_fits p slot_bytes && planes_fit ps slot_bytes

-- The plane of the frame that was allocated: its rows are sized by the frame.
unfoldable pub plane_rows : MappedPlane → ℕ
plane_rows out = out.mapped_bytes / pos_part out.bytes_per_line

abbrev pub row_bytes : MappedPlane → Plane → ℕ
row_bytes out src = min (pos_part out.bytes_per_line) (pos_part src.stride)

-- The copies of the rows that are left, from row `n` on.
unfoldable pub copy_rows : ℕ → MappedPlane → Plane → ℕ → ℕ → List Copy
copy_rows i out src n zero = []
copy_rows i out src n (suc left) =
    record {
      plane = i;
      to = n * pos_part out.bytes_per_line;
      from = pos_part src.offset + n * pos_part src.stride;
      size = row_bytes out src;
    }
    ∷ copy_rows i out src (suc n) left

-- The copies of a plane, if its rows are in the bytes that the header gives it.
unfoldable pub unpack_plane : ℕ → MappedPlane → Plane → Option (List Copy)
unfolding copy_rows plane_rows
unpack_plane i out src =
    let rows = plane_rows out in
    if leb_ℤ out.bytes_per_line (pos 0)
    then none
    else if rows == 0
        || ltb_ℤ src.bytes (pos ((rows - 1) * pos_part src.stride + row_bytes out src))
    then none
    else some (copy_rows i out src 0 rows)

-- The loop over the planes, from the `i`-th on: whether it gets through, and what it has copied by
-- then.
unfoldable pub unpack_planes : ℕ → List MappedPlane → List Plane → Bool × List Copy
unfolding unpack_plane
unpack_planes i (out ∷ outs) (src ∷ srcs) = elim (unpack_plane i out src) [
  | none ↦ (false, [])
  | some copies ↦ let (through, more) = unpack_planes (suc i) outs srcs in (through, copies ++ more)
]
unpack_planes i [] srcs = (true, [])
unpack_planes i (out ∷ outs) [] = (true, [])

-- What a call of unpack leaves: the frame that it gives, if it does, the planes that it allocated for
-- it and mapped, and what it has copied.
pub record Unpacked : Type 0 where
  pub frame : Option VideoFrame
  pub mapped : List MappedPlane
  pub copies : List Copy

abbrev pub no_frame : List MappedPlane → Unpacked
no_frame outs = record { frame = none; mapped = outs; copies = [] }

abbrev pub unpacked : FrameHeader → List MappedPlane → Bool × List Copy → Unpacked
unpacked hdr outs (through, copies) = record {
  frame =
      if through
      then some (record {
        pixel_format = hdr.pixel_format;
        width = hdr.width;
        height = hdr.height;
        start_time = hdr.start_us;
        end_time = hdr.end_us;
        planes = outs;
      })
      else none;
  mapped = outs;
  copies = copies;
}

module _ (format_of : ℤ → PixelFormat) where
  unfoldable pub is_allowed_format : ℤ → Bool
  is_allowed_format f = is_named (format_of f)

  unfoldable pub header_fits : FrameHeader → ℤ → Bool
  unfolding is_allowed_format planes_fit
  header_fits hdr slot_bytes =
      is_allowed_format hdr.pixel_format
      && size_fits hdr
      && count_fits hdr slot_bytes
      && planes_fit (take (pos_part hdr.plane_count) hdr.planes) slot_bytes

  -- The frame that is allocated for a width, a height and a format, if it can be mapped; the
  -- result has its planes, the header's times, and comes with the copies.
  unfoldable pub unpack :
      (ℤ → ℤ → ℤ → Option (List MappedPlane)) → FrameHeader → Bool → ℤ → Unpacked
  unfolding header_fits unpack_planes
  unpack allocate hdr has_slot slot_bytes =
      if not has_slot || not (header_fits hdr slot_bytes)
      then no_frame []
      else elim (allocate hdr.width hdr.height hdr.pixel_format) [
        | none ↦ no_frame []
        | some outs ↦
            if eq_ℤ (pos (length outs)) hdr.plane_count
            then unpacked hdr outs (unpack_planes 0 outs hdr.planes)
            else no_frame outs
      ]
