-- ===== src/Metadata/MkvChapters/Vint.antt =====
-- The numbers of src/services/metadata/mkvchapters.cpp: what is written in Matroska's form is read
-- back.
use batorrent.Base.{
  &&-left, &&-right, ==_iff, Bool, Bool-cases, List, [], ap, arith, false, get_elem?, gt→leb_false,
  inl, inr, length, ltb, refl, some, suc, true, zero, ℕ, ◌%◌, ◌&&◌, ◌*◌, ◌+◌, ◌-◌, ◌/◌, ◌<◌, ◌==◌,
  ◌>>=◌, ◌^◌, ◌∙◌, ◌∷◌, ◌≡◌, ◌≤◌,
}
use native.Mathlib.Numerals.{unary_clauses}
use batorrent.Metadata.MkvChapters.{Reader, marker, read_tail, read_wide, read_vint}

-- A number as `k` bytes, the highest first.
unfoldable pub be_bytes : ℕ → ℕ → List ℕ
be_bytes zero n = []
be_bytes (suc k) n = n / 256 ^ k % 256 ∷ be_bytes k n

-- Matroska's form of `n` over `k` bytes: the marker is the bit above the number's 7 * k bits.
abbrev pub write_vint : ℕ → ℕ → List ℕ
write_vint k n = be_bytes k (n + 2 ^ (7 * k))

be_value : ℕ → List ℕ → ℕ
be_value v [] = v
be_value v (b ∷ bs) = be_value (v * 256 + b) bs

are_ones : List ℕ → Bool
are_ones [] = true
are_ones (b ∷ bs) = b == 255 && are_ones bs

-- The bytes stand in the file at the place.
abbrev pub StandAt : Reader → ℕ → List ℕ → Type 0
StandAt r at [] = Unit
StandAt r at (b ∷ bs) = (get_elem? r.bytes at ≡ some b) × StandAt r (suc at) bs

read_tail_lem :
    (r : Reader) (bs : List ℕ) (at v : ℕ) (ones : Bool)
    → StandAt r at bs
    → read_tail (length bs) r at v ones ≡ some (be_value v bs, ones && are_ones bs)
unfolding read_tail be_value are_ones
read_tail_lem r [] at v true h = refl
read_tail_lem r [] at v false h = refl
read_tail_lem r (b ∷ bs) at v ones h =
    rw (h.0, ◌>>=◌)
      (read_tail_lem r bs (suc at) (v * 256 + b) (ones && b == 255) h.1
        ∙ ap (λ t. some (be_value (v * 256 + b) bs, t)) (&&_assoc ones (b == 255) (are_ones bs)))
  where
    &&_assoc : (a b c : Bool) → (a && b) && c ≡ a && (b && c)
    &&_assoc true b c = refl
    &&_assoc false b c = refl

-- Numbers all of whose bits are ones.
are_ones-value :
    (bs : List ℕ) (v : ℕ) → are_ones bs ≡ true → be_value v bs + 1 ≡ (v + 1) * 256 ^ length bs
unfolding be_value are_ones
are_ones-value [] v e = omega arith
are_ones-value (b ∷ bs) v e =
    let last : b ≡ 255 = (==_iff b 255).0 (&&-left (b == 255) (are_ones bs) e) in
    are_ones-value bs (v * 256 + b) (&&-right (b == 255) (are_ones bs) e)
    ∙ rw last (simp unary_clauses (grow v (256 ^ length bs)))
  where
    grow : (w p : ℕ) → suc (w * 256 + 255) * p ≡ suc w * (p * 256)
    grow w p = grind arith

read_wide_parts :
    (r : Reader) (at first mask : ℕ) (bs : List ℕ)
    → StandAt r (suc at) bs
    → length bs < 8
    → at + suc (length bs) ≤ r.end
    → read_wide r at false first (suc (length bs), mask)
      ≡ some (
        at + suc (length bs),
        be_value (first % mask) bs,
        ((first % mask == mask - 1) && are_ones bs) && true,
      )
unfolding read_wide
read_wide_parts r at first mask bs h few fits =
    let tail = read_tail_lem r bs (suc at) (first % mask) (first % mask == mask - 1) h in
    let len : suc (length bs) - 1 ≡ length bs = omega arith in
    rw (gt→leb_false' (length bs) few, fits' r.end (at + suc (length bs)) fits, len, tail) refl
  where
    gt→leb_false' : (n : ℕ) → n < 8 → ltb 8 (suc n) ≡ false
    gt→leb_false' n l = ground arith

    fits' : (e a : ℕ) → a ≤ e → ltb e a ≡ false
    fits' e a l = ground arith

read_vint_wide :
    (r : Reader) (at first : ℕ)
    → get_elem? r.bytes at ≡ some first
    → 0 < first
    → at < r.end
    → read_vint r at false ≡ read_wide r at false first (marker 8 first 128 1)
unfolding read_vint
read_vint_wide r at first e p l = rw (gt→leb_false r.end at l, e, ◌>>=◌, not_zero first p) refl
  where
    not_zero : (n : ℕ) → 0 < n → (n == 0) ≡ false
    not_zero n h = ground arith

-- The rest follows from the first byte: which bit marks it, and what the bytes amount to.
module _ (r : Reader) (at n : ℕ) where
  by_parts :
      (first mask : ℕ) (bs : List ℕ)
      → StandAt r at (first ∷ bs)
      → length bs < 8
      → at + suc (length bs) ≤ r.end
      → marker 8 first 128 1 ≡ (suc (length bs), mask)
      → 0 < first
      → be_value (first % mask) bs ≡ n
      → n + 1 < mask * 256 ^ length bs
      → 0 < mask
      → read_vint r at false ≡ some (at + suc (length bs), n, false)
  by_parts first mask bs h few fits m p v small pm =
      read_vint_wide r at first h.0 p (omega arith)
      ∙ ap (read_wide r at false first) m
      ∙ read_wide_parts r at first mask bs h.1 few fits
      ∙ rw (v, not_ones) refl
    where
      not_ones : ((first % mask == mask - 1) && are_ones bs) && true ≡ false
      not_ones = elim (Bool-cases ((first % mask == mask - 1) && are_ones bs)) [
        | inr e ↦ rw e refl
        | inl e ↦ absurd (
            let top : first % mask ≡ mask - 1 =
              (==_iff _ _).0 (&&-left (first % mask == mask - 1) (are_ones bs) e) in
            let full =
              are_ones-value bs (first % mask)
                (&&-right (first % mask == mask - 1) (are_ones bs) e) in
            let one : mask - 1 + 1 ≡ mask = omega arith in
            let reached : n + 1 ≡ mask * 256 ^ length bs = rw (v, top, one) at full in omega arith)
      ]

abbrev first_byte : ℕ → ℕ → ℕ
first_byte k n = (n + 2 ^ (7 * k)) / 256 ^ (k - 1) % 256

marker1 : (n : ℕ) → n < 2 ^ 7 → marker 8 (first_byte 1 n) 128 1 ≡ (1, 128)
unfolding marker
marker1 n h = ground arith

marker2 : (n : ℕ) → n < 2 ^ 14 → marker 8 (first_byte 2 n) 128 1 ≡ (2, 64)
unfolding marker
marker2 n h = ground arith

marker3 : (n : ℕ) → n < 2 ^ 21 → marker 8 (first_byte 3 n) 128 1 ≡ (3, 32)
unfolding marker
marker3 n h = ground arith

marker4 : (n : ℕ) → n < 2 ^ 28 → marker 8 (first_byte 4 n) 128 1 ≡ (4, 16)
unfolding marker
marker4 n h = ground arith

marker5 : (n : ℕ) → n < 2 ^ 35 → marker 8 (first_byte 5 n) 128 1 ≡ (5, 8)
unfolding marker
marker5 n h = ground arith

marker6 : (n : ℕ) → n < 2 ^ 42 → marker 8 (first_byte 6 n) 128 1 ≡ (6, 4)
unfolding marker
marker6 n h = ground arith

marker7 : (n : ℕ) → n < 2 ^ 49 → marker 8 (first_byte 7 n) 128 1 ≡ (7, 2)
unfolding marker
marker7 n h = ground arith

marker8 : (n : ℕ) → n < 2 ^ 56 → marker 8 (first_byte 8 n) 128 1 ≡ (8, 1)
unfolding marker
marker8 n h = ground arith

-- A number written over `k` bytes, 1 to 8, that is not the form of an unknown size, is read back from wherever its bytes
-- stand in the file, and the reader goes on behind them.
pub read_vint-write_vint :
    (r : Reader) (at k n : ℕ)
    → 0 < k
    → k ≤ 8
    → n + 1 < 2 ^ (7 * k)
    → at + k ≤ r.end
    → StandAt r at (write_vint k n)
    → read_vint r at false ≡ some (at + k, n, false)
unfolding be_bytes be_value
read_vint-write_vint r at zero n p l small fits h = absurd (omega arith)
read_vint-write_vint r at (suc zero) n p l small fits h =
    by_parts r at n (first_byte 1 n) 128 (be_bytes 0 (n + 2 ^ 7)) h (omega arith) fits
      (marker1 n (omega arith)) (omega arith) (omega arith) small (omega arith)
read_vint-write_vint r at (suc (suc zero)) n p l small fits h =
    by_parts r at n (first_byte 2 n) 64 (be_bytes 1 (n + 2 ^ 14)) h (omega arith) fits
      (marker2 n (omega arith)) (omega arith) (omega arith) small (omega arith)
read_vint-write_vint r at (suc (suc (suc zero))) n p l small fits h =
    by_parts r at n (first_byte 3 n) 32 (be_bytes 2 (n + 2 ^ 21)) h (omega arith) fits
      (marker3 n (omega arith)) (omega arith) (omega arith) small (omega arith)
read_vint-write_vint r at (suc (suc (suc (suc zero)))) n p l small fits h =
    by_parts r at n (first_byte 4 n) 16 (be_bytes 3 (n + 2 ^ 28)) h (omega arith) fits
      (marker4 n (omega arith)) (omega arith) (omega arith) small (omega arith)
read_vint-write_vint r at (suc (suc (suc (suc (suc zero))))) n p l small fits h =
    by_parts r at n (first_byte 5 n) 8 (be_bytes 4 (n + 2 ^ 35)) h (omega arith) fits
      (marker5 n (omega arith)) (omega arith) (omega arith) small (omega arith)
read_vint-write_vint r at (suc (suc (suc (suc (suc (suc zero)))))) n p l small fits h =
    by_parts r at n (first_byte 6 n) 4 (be_bytes 5 (n + 2 ^ 42)) h (omega arith) fits
      (marker6 n (omega arith)) (omega arith) (omega arith) small (omega arith)
read_vint-write_vint r at (suc (suc (suc (suc (suc (suc (suc zero))))))) n p l small fits h =
    by_parts r at n (first_byte 7 n) 2 (be_bytes 6 (n + 2 ^ 49)) h (omega arith) fits
      (marker7 n (omega arith)) (omega arith) (omega arith) small (omega arith)
read_vint-write_vint r at (suc (suc (suc (suc (suc (suc (suc (suc zero)))))))) n p l small fits h =
    by_parts r at n (first_byte 8 n) 1 (be_bytes 7 (n + 2 ^ 56)) h (omega arith) fits
      (marker8 n (omega arith)) (omega arith) (omega arith) small (omega arith)
read_vint-write_vint r at (suc (suc (suc (suc (suc (suc (suc (suc (suc k))))))))) n p l small fits
      h =
    absurd (omega arith)
