-- ===== src/Ipc/MediaFrame/Unpacking.antt =====
-- What unpack of src/ipc/mediaframe.cpp reads and writes.
use mathlib.Core.Option
use mathlib.Core.Option.{some-injective}
use batorrent.Base.{
  &&-left, &&-right, -ℤ_parts, All, All-append, All-weaken, Bool, List, Option, Option-cases, [],
  append_assoc, arith, div-add-mod, else-eq-some, eq_ℤ, false, get_elem?, if_cases, if◌then◌else◌,
  inl, inr, is_some, leb_ℤ, length, length-append, ltb_ℤ, min, none, not, pos, pos_part, refl, some,
  subst, suc, take, true, zero, ||-right, ℕ, ℤ, ◌&&◌, ◌*◌, ◌++◌, ◌+◌, ◌-◌, ◌/◌, ◌==◌, ◌||◌, ◌∷◌,
  ◌≡◌, ◌≤◌,
}
use batorrent.Ipc.MediaFrame.{
  Plane, FrameHeader, MappedPlane, Copy, PixelFormat, plane_fits, planes_fit, size_fits, count_fits,
  is_allowed_format, plane_rows, row_bytes, copy_rows, unpack_plane, unpack_planes, header_fits,
  unpack, unpacked, Unpacked,
}

-- A copy stays in its row's plane, and reads no byte past the end of the source plane.
abbrev InPlane : ℕ → MappedPlane → ℕ → Copy → Type 0
InPlane i out end c = (c.plane ≡ i) × (c.to + c.size ≤ out.mapped_bytes) × (c.from + c.size ≤ end)

row_in_target : (n left w s m : ℕ) → (n + suc left) * w ≤ m → n * w + min w s ≤ m
row_in_target n left w s m a = grind arith

row_in_source :
    (n left w s f e : ℕ) → f + ((n + suc left - 1) * s + min w s) ≤ e → f + n * s + min w s ≤ e
row_in_source n left w s f e b =
    let more : n + suc left - 1 ≡ n + left = omega arith in
    let b' : f + ((n + left) * s + min w s) ≤ e = rw more at b in grind arith

module _ (i : ℕ) (out : MappedPlane) (src : Plane) (end : ℕ) where
  copy_rows-InPlane :
      (n left : ℕ)
      → (n + left) * pos_part out.bytes_per_line ≤ out.mapped_bytes
      → pos_part src.offset + ((n + left - 1) * pos_part src.stride + row_bytes out src) ≤ end
      → All (InPlane i out end) (copy_rows i out src n left)
  unfolding copy_rows
  copy_rows-InPlane n zero a b = tt
  copy_rows-InPlane n (suc left) a b =
      let next : suc n + left ≡ n + suc left = omega arith in
      (
        (
          refl,
          row_in_target n left (pos_part out.bytes_per_line) (pos_part src.stride) out.mapped_bytes
              a,
          row_in_source n left (pos_part out.bytes_per_line) (pos_part src.stride)
              (pos_part src.offset) end b,
        ),
        copy_rows-InPlane (suc n) left (rw next a) (rw next b),
      )

-- The bytes that the header gives a plane are in the slot.
plane_fits-le :
    (p : Plane) (slot : ℤ)
    → plane_fits p slot ≡ true
    → pos_part p.offset + pos_part p.bytes ≤ pos_part slot
plane_fits-le p slot h = ground (arith, -ℤ_parts slot p.offset)

rows_le : (m w : ℕ) → m / w * w ≤ m
rows_le m w = grind (arith, div-add-mod)

unpack_plane-InPlane :
    (i : ℕ) (out : MappedPlane) (src : Plane) (slot : ℤ) {copies : List Copy}
    → plane_fits src slot ≡ true
    → unpack_plane i out src ≡ some copies
    → All (InPlane i out (pos_part slot)) copies
unfolding unpack_plane
unpack_plane-InPlane i out src slot f e =
    let rows = plane_rows out in
    let w = pos_part out.bytes_per_line in
    let need = (rows - 1) * pos_part src.stride + row_bytes out src in
    let short = rows == 0 || ltb_ℤ src.bytes (pos need) in
    let found = copy_rows i out src 0 rows in
    let (_, e') =
      else-eq-some (leb_ℤ out.bytes_per_line (pos 0)) (if short then none else some found) e in
    let (enough, e'') = else-eq-some short (some found) e' in
    let some_need =
      needed src.bytes need (||-right (rows == 0) (ltb_ℤ src.bytes (pos need)) enough) in
    subst (All (InPlane i out (pos_part slot))) (some-injective _ _ e'') (
      copy_rows-InPlane i out src (pos_part slot) 0 rows (omega (arith, rows_le out.mapped_bytes w))
        (rw (zero-add' rows) (omega (arith, plane_fits-le src slot f, some_need))))
  where
    zero-add' : (n : ℕ) → 0 + n ≡ n
    zero-add' n = omega arith

    needed : (b : ℤ) (n : ℕ) → ltb_ℤ b (pos n) ≡ false → n ≤ pos_part b
    needed b n h = ground arith

-- A copy is in the plane of the frame that it names, and in the slot.
abbrev pub InBounds : List MappedPlane → ℕ → Copy → Type 0
InBounds outs slot c =
    (out : MappedPlane) × (get_elem? outs c.plane ≡ some out)
    × (c.to + c.size ≤ out.mapped_bytes)
    × (c.from + c.size ≤ slot)

get_elem?-append_length :
    {A : Type 0} (xs : List A) (y : A) (ys : List A) → get_elem? (xs ++ y ∷ ys) (length xs) ≡ some y
get_elem?-append_length [] y ys = refl
get_elem?-append_length (x ∷ xs) y ys = get_elem?-append_length xs y ys

unpack_planes-InBounds :
    (before outs : List MappedPlane) (srcs : List Plane) (slot : ℤ)
    → planes_fit (take (length outs) srcs) slot ≡ true
    → All (InBounds (before ++ outs) (pos_part slot)) (unpack_planes (length before) outs srcs).1
unfolding unpack_planes planes_fit
unpack_planes-InBounds before [] srcs slot f = tt
unpack_planes-InBounds before (out ∷ outs) [] slot f = tt
unpack_planes-InBounds before (out ∷ outs) (src ∷ srcs) slot f =
    let i = length before in
    let all = InBounds (before ++ out ∷ outs) (pos_part slot) in
    let fit = plane_fits src slot in
    let others = planes_fit (take (length outs) srcs) slot in
    elim (Option-cases (unpack_plane i out src)) [
      | inl e ↦ rw (e, unpack_planes) tt
      | inr (here, e) ↦
          let longer : suc i ≡ length (before ++ out ∷ []) =
            omega (arith, length-append before (out ∷ [])) in
          let tail : All all (unpack_planes (suc i) outs srcs).1 =
            rw (← longer, append_assoc before (out ∷ []) outs) at
              (unpack_planes-InBounds (before ++ out ∷ []) outs srcs slot
                (&&-right fit others f)) in
          rw (e, unpack_planes)
            (All-append all here (unpack_planes (suc i) outs srcs).1
              (All-weaken (InPlane i out (pos_part slot)) all here
                (λ c (p, t, s). (out, rw p (get_elem?-append_length before out outs), t, s))
                (unpack_plane-InPlane i out src slot (&&-left fit others f) e))
              tail)
    ]

counted : (n : ℕ) (z : ℤ) → eq_ℤ (pos n) z ≡ true → pos_part z ≡ n
counted n z h = ground arith

both_passed : (a b : Bool) → not a || not b ≡ false → b ≡ true
both_passed a b h = ground arith

module _ (format_of : ℤ → PixelFormat) (allocate : ℤ → ℤ → ℤ → Option (List MappedPlane)) where
  -- As many planes as the header counts are in the slot.
  header_fits-planes :
      (hdr : FrameHeader) (slot : ℤ)
      → header_fits format_of hdr slot ≡ true
      → planes_fit (take (pos_part hdr.plane_count) hdr.planes) slot ≡ true
  unfolding header_fits
  header_fits-planes hdr slot h =
      last (is_allowed_format format_of hdr.pixel_format) (size_fits hdr) (count_fits hdr slot)
        (planes_fit (take (pos_part hdr.plane_count) hdr.planes) slot) h
    where
      last : (a b c d : Bool) → a && b && c && d ≡ true → d ≡ true
      last a b c d h = ground arith

  abbrev IsKept : ℤ → Unpacked → Type 0
  IsKept slot r =
      All (InBounds r.mapped (pos_part slot)) r.copies
      × (Option.map (λ f. f.planes) r.frame ≡ (if is_some r.frame then some r.mapped else none))

  unpacked-IsKept :
      (hdr : FrameHeader) (outs : List MappedPlane) (slot : ℤ)
      → header_fits format_of hdr slot ≡ true
      → eq_ℤ (pos (length outs)) hdr.plane_count ≡ true
      → IsKept slot (unpacked hdr outs (unpack_planes 0 outs hdr.planes))
  unpacked-IsKept hdr outs slot h same = (
    unpack_planes-InBounds [] outs hdr.planes slot
        (rw (counted (length outs) hdr.plane_count same) at (header_fits-planes hdr slot h)),
    planes_of (unpack_planes 0 outs hdr.planes),
  )
    where
      planes_of :
          (r : Bool × List Copy)
          → Option.map (λ f. f.planes) (unpacked hdr outs r).frame
            ≡ (if is_some (unpacked hdr outs r).frame then some outs else none)
      planes_of (true, copies) = refl
      planes_of (false, copies) = refl

  -- Every copy that unpack makes stays inside a plane of the frame that it allocated and reads inside
  -- the slot, whatever the header says, and also where it gives no frame in the end; the frame that it
  -- gives, if it gives one, has the planes that it allocated.
  pub unpack-InBounds :
      (hdr : FrameHeader) (has_slot : Bool) (slot : ℤ)
      → (let r = unpack format_of allocate hdr has_slot slot in
          All (InBounds r.mapped (pos_part slot)) r.copies
          × (Option.map (λ f. f.planes) r.frame
              ≡ (if is_some r.frame then some r.mapped else none)))
  unfolding unpack
  unpack-InBounds hdr has_slot slot =
      if_cases (IsKept slot) (not has_slot || not (header_fits format_of hdr slot))
        (λ _. (tt, refl))
        (λ passed. elim (Option-cases (allocate hdr.width hdr.height hdr.pixel_format)) [
          | inl e ↦ rw e (tt, refl)
          | inr (outs, e) ↦ rw e (
              if_cases (IsKept slot) (eq_ℤ (pos (length outs)) hdr.plane_count)
                (unpacked-IsKept hdr outs slot
                  (both_passed has_slot (header_fits format_of hdr slot) passed))
                (λ _. (tt, refl)))
        ])
