-- ===== src/Downloads/RangePlan/Tiling.antt =====
-- src/services/downloads/rangeplan.h: how the ranges of a plan lie in the file, and their sizes.
use batorrent.Base.{
  List, [], ap, arith, div-add-mod, gt→leb_false, if◌then◌else◌, le-div_iff_mul-le, length, ltb,
  min, mod-lt, pos, refl, subst, suc, suc-mul, zero, ℕ, ℤ, ◌%◌, ◌*◌, ◌+ℤ◌, ◌+◌, ◌-ℤ◌, ◌-◌, ◌/◌, ◌<◌,
  ◌∷◌, ◌≡◌, ◌≤◌,
}
use batorrent.Downloads.RangePlan.{ByteRange, size, plan_loop, segment_count, plan_segments}

-- The ranges are non-empty, and each starts behind the one before, from byte `p` up to byte `q`.
abbrev pub Tiles : ℕ → ℕ → List ByteRange → Type 0
Tiles p q [] = p ≡ q
Tiles p q (r ∷ rs) = (m : ℕ) × (r.start ≡ pos p) × (p ≤ m) × (r.end ≡ pos m) × Tiles (suc m) q rs

pub Tiles-le : (p q : ℕ) (rs : List ByteRange) → Tiles p q rs → p ≤ q
Tiles-le p q [] t = omega arith
Tiles-le p q (r ∷ rs) (m, a, le, b, t) = omega (arith, Tiles-le (suc m) q rs t)

-- What the loop has still to hand out from round `i` on.
rest_of : ℕ → ℕ → ℕ → ℕ → ℕ
rest_of left base rem i = left * base + min left (rem - i)

-- One range of the loop: `base` bytes, and one more in the first `rem` rounds.
abbrev len_at : ℕ → ℕ → ℕ → ℕ
len_at base rem i = base + (if ltb i rem then 1 else 0)

last_byte : (at len : ℕ) → 0 < len → pos (at + len) -ℤ pos 1 ≡ pos (at + len - 1)
unfolding ◌-ℤ◌
last_byte at len h = ground arith

rest_of-suc :
    (left base rem i : ℕ)
    → rest_of (suc left) base rem i ≡ len_at base rem i + rest_of left base rem (suc i)
unfolding rest_of
rest_of-suc left base rem i = ground (arith, suc-mul left base)

plan_loop-Tiles :
    (left base rem i at q : ℕ)
    → 0 < base
    → at + rest_of left base rem i ≡ q
    → Tiles at q (plan_loop left base rem i at)
unfolding plan_loop
plan_loop-Tiles zero base rem i at q h e = unfold rest_of in ground arith
plan_loop-Tiles (suc left) base rem i at q h e =
    let len = len_at base rem i in
    (
      at + len - 1,
      refl,
      ground arith,
      last_byte at len (ground arith),
      subst (λ m. Tiles m q (plan_loop left base rem (suc i) (at + len))) (ground arith)
          (plan_loop-Tiles left base rem (suc i) (at + len) q h
            (omega (arith, rest_of-suc left base rem i))),
    )

div_rest : (t n : ℕ) → 0 < n → rest_of n (t / n) (t % n) 0 ≡ t
unfolding rest_of
div_rest t n h = grind (arith, div-add-mod t n, mod-lt t {m = n} h)

-- The ranges of a file of known size tile it: they are non-empty, they follow one another without a
-- gap or an overlap, and they end at its last byte. This holds for every number of connections.
pub plan_segments-Tiles :
    (total : ℕ) (conns : ℤ) → 0 < total → Tiles 0 total (plan_segments (pos total) conns)
unfolding plan_segments
plan_segments-Tiles total conns h =
    let n = segment_count total conns in
    let some_range : 0 < n = ground arith in
    let at_least_one : 0 < total / n = (le-div_iff_mul-le some_range).1 (ground arith) in
    rw (gt→leb_false (total + 0) 0 (omega arith)) (
      plan_loop-Tiles n (total / n) (total % n) 0 0 total at_least_one
        (omega (arith, div_rest total n some_range)))

-- The share of round `i`, for the sizes of a plan from round `i` on.
abbrev pub Sized : ℕ → ℕ → ℕ → List ByteRange → Type 0
Sized base rem i [] = Unit {0}
Sized base rem i (r ∷ rs) = (size r ≡ pos (len_at base rem i)) × Sized base rem (suc i) rs

size-segment :
    (at len : ℕ) → size (record { start = pos at; end = pos (at + len) -ℤ pos 1 }) ≡ pos len
unfolding size ◌+ℤ◌ ◌-ℤ◌
size-segment at len = ground arith

plan_loop-Sized : (left base rem i at : ℕ) → Sized base rem i (plan_loop left base rem i at)
unfolding plan_loop
plan_loop-Sized zero base rem i at = tt
plan_loop-Sized (suc left) base rem i at =
    (size-segment at (len_at base rem i), plan_loop-Sized left base rem (suc i) _)

length-plan_loop : (left base rem i at : ℕ) → length (plan_loop left base rem i at) ≡ left
unfolding plan_loop
length-plan_loop zero base rem i at = refl
length-plan_loop (suc left) base rem i at = ap suc (length-plan_loop left base rem (suc i) _)

-- A plan for a file of known size has one range for each connection, but at least one range and at
-- most one for each byte. With `base` the whole part and `rem` the remainder of the division, the
-- first `rem` ranges have `base + 1` bytes and the others `base`.
plan_segments-Sized :
    (total : ℕ) (conns : ℤ)
    → 0 < total
    → (length (plan_segments (pos total) conns) ≡ segment_count total conns)
      × Sized
          (total / segment_count total conns)
          (total % segment_count total conns)
          0
          (plan_segments (pos total) conns)
unfolding plan_segments
plan_segments-Sized total conns h =
    let n = segment_count total conns in
    rw (gt→leb_false (total + 0) 0 (omega arith))
      (length-plan_loop n _ _ 0 0, plan_loop-Sized n (total / n) (total % n) 0 0)
