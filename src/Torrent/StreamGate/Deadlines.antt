-- ===== src/Torrent/StreamGate/Deadlines.antt =====
-- The deadlines and the sizes that decide when a file can be played.
use batorrent.Base.{
  Bool, arith, div-add-mod, false, if_cases, if◌then◌else◌, inl, inr, le-div_iff_mul-le, leb_ℤ, ltb,
  ltb_ℤ, ltb→lt, min, mod-lt, not, pos, pos_part, refl, true, ℕ, ℤ, ◌&&◌, ◌*◌, ◌+◌, ◌-◌, ◌/◌, ◌<◌,
  ◌||◌, ◌≡◌, ◌≤ℤ◌, ◌≤◌, ◌⊎◌,
}
use native.Mathlib.Nat.{mul_comm, mul-le-mul_right}
use batorrent.Torrent.StreamGate.{
  bytes_per_sec, deadline_ms, window_pieces, head_bytes, ready, clamp, min_head, max_head,
}

div_mono : (x y k : ℕ) → 0 < k → x ≤ y → x / k ≤ y / k
div_mono x y k h l =
    (le-div_iff_mul-le {x = x / k} {y = y} h).1
      (omega (arith, l, div-add-mod x k, mul_comm (x / k) k))

-- The quotient rounded up covers what is divided.
ceil_covers : (w p : ℕ) → 0 < p → w ≤ (w + p - 1) / p * p
ceil_covers w p h =
    omega (arith, h, div-add-mod (w + p - 1) p, mod-lt (w + p - 1) h, mul_comm ((w + p - 1) / p) p)

fast : (size : ℤ) → 0 < bytes_per_sec size
unfolding bytes_per_sec
fast size = omega arith

-- A byte that is further away has a deadline that is no earlier, and no deadline is more than ten
-- minutes away.
pub deadline_ms_mono :
    (near far size : ℤ)
    → near ≤ℤ far
    → (deadline_ms near size ≤ deadline_ms far size) × (deadline_ms far size ≤ 600000)
unfolding deadline_ms
deadline_ms_mono near far size h =
    let k = bytes_per_sec size in
    let later =
      div_mono (pos_part near * 1000) (pos_part far * 1000) k (fast size) (parts near far h) in
    if_cases (λ (x : ℕ). (x ≤ deadline_ms far size) × (deadline_ms far size ≤ 600000))
      (leb_ℤ near (pos 0)) {x = 0} {y = min (pos_part near * 1000 / k) 600000}
      (λ _. (omega arith, top far))
      (λ q. (
        if_cases (λ (x : ℕ). min (pos_part near * 1000 / k) 600000 ≤ x) (leb_ℤ far (pos 0)) {x = 0}
            {y = min (pos_part far * 1000 / k) 600000} (λ r. absurd (between near far h q r))
            (λ _. omega (arith, later)),
        top far,
      ))
  where
    parts : (a b : ℤ) → a ≤ℤ b → pos_part a * 1000 ≤ pos_part b * 1000
    parts a b h = ground arith

    between : (a b : ℤ) → a ≤ℤ b → leb_ℤ a (pos 0) ≡ false → leb_ℤ b (pos 0) ≡ true → ⊥
    between a b h q r = ground arith

    top : (d : ℤ) → deadline_ms d size ≤ 600000
    top d =
        if_cases (λ (x : ℕ). x ≤ 600000) (leb_ℤ d (pos 0)) {x = 0}
          {y = min (pos_part d * 1000 / bytes_per_sec size) 600000} (λ _. omega arith)
          (λ _. omega arith)

-- The window has between 4 and 128 pieces, and unless it has the most, its pieces cover 30 seconds
-- of playback; this holds for pieces that are not empty.
window_pieces-covers :
    (p : ℕ) (size : ℤ)
    → 0 < p
    → let n = window_pieces (pos p) size in
      (4 ≤ n) × (n ≤ 128) × ((n ≡ 128) ⊎ (30 * bytes_per_sec size ≤ n * p))
unfolding window_pieces
window_pieces-covers p size h =
    let w = 30 * bytes_per_sec size in
    if_cases Covers (leb_ℤ (pos p) (pos 0)) {x = 4} {y = clamp ((w + p - 1) / p) 4 128}
      (λ q. absurd (empty p h q)) (λ _. clamped ((w + p - 1) / p) (ceil_covers w p h))
  where
    Covers : ℕ → Type 0
    Covers n = (4 ≤ n) × (n ≤ 128) × ((n ≡ 128) ⊎ (30 * bytes_per_sec size ≤ n * p))

    empty : (p : ℕ) → 0 < p → leb_ℤ (pos p) (pos 0) ≡ true → ⊥
    empty p h q = ground arith

    not_less : (x y : ℕ) → ltb x y ≡ false → y ≤ x
    not_less x y h = ground arith

    low : (x y : ℕ) → x < y → x ≤ y
    low x y h = omega arith

    clamped : (n : ℕ) → 30 * bytes_per_sec size ≤ n * p → Covers (clamp n 4 128)
    clamped n c =
        if_cases Covers (ltb n 4) {x = 4} {y = if ltb 128 n then 128 else n}
          (λ q. (
            omega arith,
            omega arith,
            inr (omega (arith, c, mul-le-mul_right p (low n 4 (ltb→lt n 4 q)))),
          ))
          (λ q.
            if_cases Covers (ltb 128 n) {x = 128} {y = n}
              (λ _. (omega arith, omega arith, inl refl))
              (λ r. (not_less n 4 q, not_less 128 n r, inr c)))

-- A file that is there in full is ready, whatever it needs, and a file that is ready stays so when
-- more of it arrives; an empty file is never ready.
pub ready_grows :
    (size : ℕ) (head more : ℤ) (tail more_tail needed : Bool)
    → head ≤ℤ more
    → (tail ≡ true → more_tail ≡ true)
    → (0 < size → ready (pos size) (pos size) true needed ≡ true)
      × (ready head (pos size) tail needed ≡ true → ready more (pos size) more_tail needed ≡ true)
      × (ready head (pos 0) tail needed ≡ false)
unfolding ready
ready_grows size head more tail more_tail needed h t = (
  λ p. full size (head_bytes (pos size)) needed p (head_fits size),
  λ q. grows size (head_bytes (pos size)) head more tail more_tail needed h t q,
  none_ready head (head_bytes (pos 0)) tail needed,
)
  where
    head_fits : (n : ℕ) → head_bytes (pos n) ≤ n
    head_fits n =
        unfold head_bytes in
        if_cases (λ (x : ℕ). x ≤ n) (leb_ℤ (pos n) (pos 0)) {x = 0}
          {y = min n (clamp (3 * bytes_per_sec (pos n)) min_head max_head)} (λ _. omega arith)
          (λ _. omega arith)

    full :
        (n b : ℕ) (needed : Bool)
        → 0 < n
        → b ≤ n
        → ltb_ℤ (pos 0) (pos n) && (true || not needed) && leb_ℤ (pos b) (pos n) ≡ true
    full n b needed h k = ground arith

    grows :
        (n b : ℕ) (x y : ℤ) (t u d : Bool)
        → x ≤ℤ y
        → (t ≡ true → u ≡ true)
        → ltb_ℤ (pos 0) (pos n) && (t || not d) && leb_ℤ (pos b) x ≡ true
        → ltb_ℤ (pos 0) (pos n) && (u || not d) && leb_ℤ (pos b) y ≡ true
    grows n b x y t u d h k q = ground arith

    none_ready :
        (x : ℤ) (b : ℕ) (t d : Bool)
        → ltb_ℤ (pos 0) (pos 0) && (t || not d) && leb_ℤ (pos b) x ≡ false
    none_ready x b t d = ground arith
