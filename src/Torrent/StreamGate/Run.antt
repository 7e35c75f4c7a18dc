-- ===== src/Torrent/StreamGate/Run.antt =====
-- src/torrent/streamgate.h: the run of bytes that are there without a gap.
use batorrent.Base.{
  Bool, Bool-cases, List, ap, arith, div-add-mod, false, get_or, if_cases, if◌then◌else◌, inl, inr,
  le-div_iff_mul-le, leb, leb_ℤ, leb→le, length, ltb, ltb_ℤ, ltb→lt, min, mod-lt, not, pos, subst,
  suc, suc-mul, sym, true, zero, ℕ, ◌*◌, ◌+◌, ◌-◌, ◌/◌, ◌<◌, ◌||◌, ◌∙◌, ◌≡◌, ◌≤◌,
}
use native.Mathlib.Nat.{mul_comm}
use batorrent.Torrent.StreamGate.{missing, run_loop, run_from, contiguous_run}

module _ (have : List Bool) (p : ℕ) (positive : 0 < p) where
  -- The byte is in a piece that is there.
  abbrev pub IsThere : ℕ → Type 0
  IsThere x = missing have (x / p) ≡ false

  div_block : (e x : ℕ) → e * p ≤ x → x < suc e * p → x / p ≡ e
  div_block e x h k =
      let low : e ≤ x / p = (le-div_iff_mul-le positive).1 h in
      let high : suc e ≤ x / p → suc e * p ≤ x = λ q. (le-div_iff_mul-le positive).0 q in
      exact_block (x / p) e low (λ q. omega (arith, high q))
    where
      exact_block : (a b : ℕ) → b ≤ a → (suc b ≤ a → ⊥) → a ≡ b
      exact_block a b h k = elim (Bool-cases (leb (suc b) a)) [
        | inl q ↦ absurd (k (leb→le (suc b) a q))
        | inr q ↦ ground arith
      ]

  -- What holds of the place where the loop stops.
  abbrev IsEnd : ℕ → ℕ → ℕ → Type 0
  IsEnd global most end =
      ((x : ℕ) → global ≤ x → x < end → IsThere x)
      × (end - global < most → missing have (end / p) ≡ true)

  run_loop-IsEnd :
      (n global most e : ℕ)
      → global < e * p
      → length have ≤ n + e
      → ((x : ℕ) → global ≤ x → x < e * p → IsThere x)
      → (global < run_loop n have p global most (e * p))
        × IsEnd global most (run_loop n have p global most (e * p))
  unfolding run_loop
  run_loop-IsEnd zero global most e g l h = (
    g,
    (
      h,
      λ _.
          beyond (length have) (e * p / p) (get_or have (e * p / p) false)
            (omega (arith, l, div_block e (e * p) (omega arith) (omega (arith, suc-mul e p)))),
    ),
  )
    where
      beyond : (l i : ℕ) (b : Bool) → l ≤ i → leb l i || not b ≡ true
      beyond l i b h = ground arith
  run_loop-IsEnd (suc n) global most e g l h =
      let next = e * p / p in
      let here : next ≡ e = div_block e (e * p) (omega arith) (omega (arith, suc-mul e p)) in
      let rest = run_loop n have p global most (suc next * p) in
      if_cases Stops (leb most (e * p - global)) {x = e * p}
        {y = if missing have next then e * p else rest}
        (λ q. (g, (h, λ k. absurd (full most (e * p - global) q k))))
        (λ _.
          if_cases Stops (missing have next) {x = e * p} {y = rest} (λ q. (g, (h, λ _. q)))
            (λ q.
              subst (λ i. Stops (run_loop n have p global most (suc i * p))) (sym here)
                (run_loop-IsEnd n global most (suc e) (omega (arith, g, suc-mul e p))
                  (omega (arith, l))
                  (λ x a b. elim (Bool-cases (ltb x (e * p))) [
                    | inl r ↦ h x a (ltb→lt x (e * p) r)
                    | inr r ↦
                        ap (missing have) (div_block e x (not_less x (e * p) r) b ∙ sym here) ∙ q
                  ]))))
    where
      Stops : ℕ → Type 0
      Stops x = (global < x) × IsEnd global most x

      full : (c l : ℕ) → leb c l ≡ true → l < c → ⊥
      full c l h k = ground arith

      not_less : (x y : ℕ) → ltb x y ≡ false → y ≤ x
      not_less x y h = ground arith

  -- The bytes [at, at + r) are there, they are `most` at most and within the file that ends before
  -- `stop`, and if there could be more, the next byte is missing.
  abbrev pub IsLongest : ℕ → ℕ → ℕ → ℕ → Type 0
  IsLongest at stop most r =
      ((x : ℕ) → at ≤ x → x < at + r → IsThere x)
      × (r ≤ most)
      × (0 < r → at + r ≤ stop)
      × (r < most → at + r < stop → missing have ((at + r) / p) ≡ true)

  nothing-IsLongest :
      (at stop most : ℕ)
      → (0 < most → at < stop → missing have (at / p) ≡ true)
      → IsLongest at stop most 0
  nothing-IsLongest at stop most h = (
    λ x a b. absurd (omega arith),
    omega arith,
    λ q. absurd (omega arith),
    λ q r. subst (λ i. missing have (i / p) ≡ true) (omega arith) (h q (omega (arith, r))),
  )

  reached-IsLongest :
      (at stop most end : ℕ)
      → at < stop
      → at < end
      → IsEnd at most end
      → IsLongest at stop most (min most (min end stop - at))
  reached-IsLongest at stop most end s g (h, m) = (
    λ x a b. h x a (omega (arith, b)),
    omega arith,
    λ _. omega (arith, s, g),
    λ q r.
        subst (λ i. missing have (i / p) ≡ true) (omega (arith, q, r, s, g))
          (m (omega (arith, q, r, s, g))),
  )

  run_from-IsLongest :
      (offset size from most : ℕ)
      → from < size
      → 0 < most
      → IsLongest (offset + from) (offset + size) most (run_from have p offset size from most)
  unfolding run_from
  run_from-IsLongest offset size from most f c =
      let at = offset + from in
      let piece = at / p in
      let end = run_loop (length have) have p at most (suc piece * p) in
      if_cases (IsLongest at (offset + size) most) (missing have piece) {x = 0}
        {y = min most (min end (offset + size) - at)}
        (λ q. nothing-IsLongest at (offset + size) most (λ _ _. q))
        (λ q.
          let (g, e) =
            run_loop-IsEnd (length have) at most (suc piece) (after at) (omega arith) (λ x a b.
              ap (missing have) (
                div_block piece x
                  (omega
                    (arith, a, (le-div_iff_mul-le {x = piece} {y = at} positive).0 (omega arith)))
                  b)
              ∙ q) in
          reached-IsLongest at (offset + size) most end (omega (arith, f)) g e)
    where
      after : (at : ℕ) → at < suc (at / p) * p
      after at =
          omega
            (arith, div-add-mod at p, mod-lt at positive, suc-mul (at / p) p, mul_comm p (at / p))

  -- The run from a byte of a file is as long as it can be: all its bytes are in pieces that are
  -- there, it does not pass the cap or the end of the file, and where it is shorter, the byte after
  -- it is in a missing piece. This holds for pieces that are not empty.
  pub contiguous_run-IsLongest :
      (offset size from most : ℕ)
      → IsLongest
          (offset + from)
          (offset + size)
          most
          (contiguous_run have (pos p) offset (pos size) (pos from) (pos most))
  unfolding contiguous_run
  contiguous_run-IsLongest offset size from most =
      if_cases (IsLongest (offset + from) (offset + size) most)
        (leb_ℤ (pos p) (pos 0)
          || ltb_ℤ (pos from) (pos 0)
          || leb_ℤ (pos size) (pos from)
          || leb_ℤ (pos most) (pos 0))
        {x = 0} {y = run_from have p offset size from most}
        (λ q.
          nothing-IsLongest (offset + from) (offset + size) most
            (λ a b. absurd (shut p from size most q positive a (omega (arith, b)))))
        (λ q.
          let (f, c) = unguarded p from size most q in run_from-IsLongest offset size from most f c)
    where
      shut :
          (p from size most : ℕ)
          → leb_ℤ (pos p) (pos 0)
              || ltb_ℤ (pos from) (pos 0)
              || leb_ℤ (pos size) (pos from)
              || leb_ℤ (pos most) (pos 0)
            ≡ true
          → 0 < p
          → 0 < most
          → from < size
          → ⊥
      shut p from size most h a b c = ground arith

      unguarded :
          (p from size most : ℕ)
          → leb_ℤ (pos p) (pos 0)
              || ltb_ℤ (pos from) (pos 0)
              || leb_ℤ (pos size) (pos from)
              || leb_ℤ (pos most) (pos 0)
            ≡ false
          → (from < size) × (0 < most)
      unguarded p from size most h = ground arith
