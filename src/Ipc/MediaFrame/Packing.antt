-- ===== src/Ipc/MediaFrame/Packing.antt =====
-- What pack of src/ipc/mediaframe.cpp writes, and that unpack takes its header.
use batorrent.Base.{
  -ℤ_parts, All, Bool, List, [], ap, arith, drop, else-eq-some, false, leb_ℤ, length, ltb, ltb_ℤ,
  not, pos, pos_part, refl, some, subst, suc, take, true, zero, ℕ, ℤ, ◌%◌, ◌*◌, ◌++◌, ◌+◌, ◌/◌,
  ◌<ℤ◌, ◌<◌, ◌==◌, ◌||◌, ◌∷◌, ◌≡◌, ◌≤ℤ◌, ◌≤◌,
}
use mathlib.Core.Option.{some-injective}
use batorrent.Ipc.MediaFrame.{
  Plane, FrameHeader, MappedPlane, VideoFrame, Copy, PixelFormat, aligned, packed_loop, packed_size,
  pack_planes, packed, pack, plane_fits, planes_fit, is_allowed_format, header_fits, max_dimension,
  max_planes,
}

-- Copies that follow one another from `at` on, at places of 64 bytes, and end in the slot.
abbrev pub LieApart : ℕ → ℕ → List Copy → Type 0
LieApart slot at [] = at ≤ slot
LieApart slot at (c ∷ cs) = (at ≤ c.to) × (c.to % 64 ≡ 0) × LieApart slot (c.to + c.size) cs

packed_loop-le : (total : ℕ) (ms : List MappedPlane) → total ≤ packed_loop total ms
unfolding packed_loop
packed_loop-le total [] = omega arith
packed_loop-le total (m ∷ ms) =
    omega (arith, packed_loop-le ((total + 63) / 64 * 64 + m.mapped_bytes) ms)

pack_planes-LieApart :
    (slot i at : ℕ) (ms : List MappedPlane)
    → packed_loop at ms ≤ slot
    → LieApart slot at (pack_planes i at ms).1
unfolding pack_planes packed_loop
pack_planes-LieApart slot i at [] h = h
pack_planes-LieApart slot i at (m ∷ ms) h =
    (omega arith, omega arith, pack_planes-LieApart slot (suc i) (aligned at + m.mapped_bytes) ms h)

-- A decoded plane has rows, and bytes.
abbrev pub HasRows : MappedPlane → Type 0
HasRows m = (pos 0 <ℤ m.bytes_per_line) × (0 < m.mapped_bytes)

plane_fits_lem :
    (m : MappedPlane) (slot : ℤ) (a : ℕ)
    → pos 0 <ℤ m.bytes_per_line
    → 0 < m.mapped_bytes
    → pos (a + m.mapped_bytes) ≤ℤ slot
    → plane_fits
        (record { stride = m.bytes_per_line; offset = pos a; bytes = pos m.mapped_bytes })
        slot
      ≡ true
plane_fits_lem m slot a s b h = ground (arith, -ℤ_parts slot (pos a))

pack_planes-fit :
    (slot : ℤ) (i at : ℕ) (ms : List MappedPlane) (more : List Plane)
    → All HasRows ms
    → pos (packed_loop at ms) ≤ℤ slot
    → planes_fit (take (length ms) ((pack_planes i at ms).0 ++ more)) slot ≡ true
unfolding pack_planes packed_loop planes_fit
pack_planes-fit slot i at [] more r h = refl
pack_planes-fit slot i at (m ∷ ms) more ((stride, bytes), r) h =
    let a = aligned at in
    let rest : pos (packed_loop (a + m.mapped_bytes) ms) ≤ℤ slot = h in
    rw (
      plane_fits_lem m slot a stride bytes (omega (arith, packed_loop-le (a + m.mapped_bytes) ms)),
      pack_planes-fit slot (suc i) (a + m.mapped_bytes) ms more r rest,
    )

packed_loop_pos :
    (total : ℕ) (ms : List MappedPlane) → 0 < length ms → All HasRows ms → 0 < packed_loop total ms
unfolding packed_loop
packed_loop_pos total [] l r = absurd (omega arith)
packed_loop_pos total (m ∷ ms) l ((stride, bytes), r) =
    omega (arith, packed_loop-le (aligned total + m.mapped_bytes) ms)

size_lem :
    (w h : ℤ)
    → (pos 0 <ℤ w) × (w ≤ℤ pos 8192)
    → (pos 0 <ℤ h) × (h ≤ℤ pos 8192)
    → not (leb_ℤ w (pos 0) || leb_ℤ h (pos 0) || ltb_ℤ (pos 8192) w || ltb_ℤ (pos 8192) h) ≡ true
size_lem w h p q = ground arith

count_lem :
    (n : ℕ) (slot : ℤ)
    → 0 < n
    → n ≤ 4
    → pos 0 <ℤ slot
    → not (leb_ℤ (pos n) (pos 0) || ltb_ℤ (pos 4) (pos n) || leb_ℤ slot (pos 0)) ≡ true
count_lem n slot p q r = ground arith

take_length_le {ℓ} : {A : Type ℓ} (n : ℕ) (xs : List A) → length xs ≤ n → take n xs ≡ xs
take_length_le zero [] h = refl
take_length_le zero (x ∷ xs) h = absurd (omega arith)
take_length_le (suc n) [] h = refl
take_length_le (suc n) (x ∷ xs) h = ap (◌∷◌ x) (take_length_le n xs (omega arith))

-- The test that pack makes, taken apart.
module _ (mapped : VideoFrame) (slot : ℤ) where
  abbrev refused : Bool → Bool
  refused has_slot =
      not has_slot
      || length mapped.planes == 0
      || ltb max_planes (length mapped.planes)
      || ltb_ℤ slot (pos (packed_size mapped))

  taken :
      (has_slot : Bool)
      → refused has_slot ≡ false
      → (0 < length mapped.planes) × (length mapped.planes ≤ 4) × (pos (packed_size mapped) ≤ℤ slot)
  taken has_slot h = (ground arith, ground arith, ground arith)

  -- The size that is tested is enough for the loop over all the planes.
  packed_size-loop : length mapped.planes ≤ 4 → packed_loop 0 mapped.planes ≤ packed_size mapped
  unfolding packed_size
  packed_size-loop h = rw (take_length_le 4 mapped.planes h) (omega arith)

-- What pack writes is in the slot, plane by plane at places of 64 bytes and none over another.
pub pack-LieApart :
    (mapped : VideoFrame) (has_slot : Bool) (slot : ℤ) (hdr : FrameHeader) {h : FrameHeader}
    {copies : List Copy}
    → pack mapped has_slot slot hdr ≡ some (h, copies)
    → LieApart (pos_part slot) 0 copies
unfolding pack
pack-LieApart mapped has_slot slot hdr e =
    let (passed, e') = else-eq-some (refused mapped slot has_slot) (some (packed mapped hdr)) e in
    let (_, few, room) = taken mapped slot has_slot passed in
    subst (λ (r : FrameHeader × List Copy). LieApart (pos_part slot) 0 r.1) (some-injective _ _ e')
      (pack_planes-LieApart (pos_part slot) 0 0 mapped.planes
        (omega (arith, packed_size-loop mapped slot few)))

module _ (format_of : ℤ → PixelFormat) where
  -- The header that pack fills in passes the test of unpack, for a frame of an allowed format, with
  -- a size of 1 to 8192 both ways and rows in each plane.
  pack-header_fits :
      (mapped : VideoFrame) (has_slot : Bool) (slot : ℤ) (hdr : FrameHeader) {h : FrameHeader}
      {copies : List Copy}
      → is_allowed_format format_of mapped.pixel_format ≡ true
      → (pos 0 <ℤ mapped.width) × (mapped.width ≤ℤ pos max_dimension)
      → (pos 0 <ℤ mapped.height) × (mapped.height ≤ℤ pos max_dimension)
      → All HasRows mapped.planes
      → pack mapped has_slot slot hdr ≡ some (h, copies)
      → header_fits format_of h slot ≡ true
  unfolding pack header_fits
  pack-header_fits mapped has_slot slot hdr named w t rows e =
      let (passed, e') = else-eq-some (refused mapped slot has_slot) (some (packed mapped hdr)) e in
      let (some_planes, few, room) = taken mapped slot has_slot passed in
      let fits =
        pack_planes-fit slot 0 0 mapped.planes (drop (length mapped.planes) hdr.planes) rows
          (omega (arith, packed_size-loop mapped slot few)) in
      subst (λ (r : FrameHeader × List Copy). header_fits format_of r.0 slot ≡ true)
        (some-injective _ _ e')
        (rw
          (
            named,
            size_lem mapped.width mapped.height w t,
            count_lem (length mapped.planes) slot some_planes few (
                omega (
                  arith,
                  packed_size-loop mapped slot few,
                  packed_loop_pos 0 mapped.planes some_planes rows,
                )),
          )
          fits)
