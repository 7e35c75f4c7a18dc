-- ===== src/Integrations/GeoIpDb/Lookup.antt =====
-- What a lookup of src/services/integrations/geoipdb.cpp finds in a sorted table.
use batorrent.Base.{
  Bool-cases, List, Option, [], arith, false, if◌then◌else◌, inl, inr, leb, ltb, ltb→lt, none, refl,
  some, suc, sym, true, ℕ, ◌&&◌, ◌-◌, ◌<◌, ◌==◌, ◌∙◌, ◌∷◌, ◌≡◌, ◌≤◌,
}
use batorrent.Integrations.GeoIpDb.{Range, upper_bound, covering, find_range}

-- The reference: the first range of the table, in any order, that has the address.
unfoldable pub scan : List Range → ℕ → Option Range
scan [] ip = none
scan (r ∷ rs) ip = if leb r.start ip && leb ip r.end then some r else scan rs ip

-- Each range ends before the next starts.
abbrev pub EndsBefore : Range → List Range → Type 0
EndsBefore r [] = Unit
EndsBefore r (s ∷ ss) = r.end < s.start

abbrev pub AreDisjoint : List Range → Type 0
AreDisjoint [] = Unit
AreDisjoint (r ∷ rs) = (r.start ≤ r.end) × EndsBefore r rs × AreDisjoint rs

-- An address below the first range is in none.
scan_below :
    (r : Range) (rs : List Range) (ip : ℕ)
    → AreDisjoint (r ∷ rs)
    → ip < r.start
    → scan (r ∷ rs) ip ≡ none
unfolding scan
scan_below r [] ip d h = ground arith
scan_below r (s ∷ ss) ip (v, e, d) h = ground (arith, scan_below s ss ip d (omega arith))

suc_sub_one : (n : ℕ) → suc n - 1 ≡ n
suc_sub_one n = omega arith

suc_eq_zero : (n : ℕ) → (suc n == 0) ≡ false
suc_eq_zero n = ground arith

-- Past two ranges that start at or before the address the first does not matter.
find_range-skip :
    (r s : Range) (ss : List Range) (ip : ℕ)
    → ltb ip r.start ≡ false
    → ltb ip s.start ≡ false
    → find_range (r ∷ s ∷ ss) ip ≡ find_range (s ∷ ss) ip
unfolding find_range
find_range-skip r s ss ip e f =
    let u = upper_bound ip ss in
    rw (e, f, suc_eq_zero u, suc_eq_zero (suc u), suc_sub_one u, suc_sub_one (suc u)) refl

find_range-first :
    (r : Range) (rs : List Range) (ip : ℕ)
    → ltb ip r.start ≡ false
    → upper_bound ip rs ≡ 0
    → find_range (r ∷ rs) ip ≡ covering ip (some r)
unfolding find_range
find_range-first r rs ip e z = rw (e, z) refl

find_range-below :
    (r : Range) (rs : List Range) (ip : ℕ) → ltb ip r.start ≡ true → find_range (r ∷ rs) ip ≡ none
unfolding find_range
find_range-below r rs ip e = rw e refl

covering-scan :
    (r : Range) (rs : List Range) (ip : ℕ)
    → ltb ip r.start ≡ false
    → scan rs ip ≡ none
    → covering ip (some r) ≡ scan (r ∷ rs) ip
unfolding scan
covering-scan r rs ip e n = ground (arith, n)

scan-skip : (r : Range) (rs : List Range) (ip : ℕ) → r.end < ip → scan (r ∷ rs) ip ≡ scan rs ip
unfolding scan
scan-skip r rs ip h = ground arith

-- In a sorted table whose ranges do not overlap the search finds what the scan finds.
pub find_range-scan :
    (ranges : List Range) (ip : ℕ) → AreDisjoint ranges → find_range ranges ip ≡ scan ranges ip
unfolding find_range scan upper_bound
find_range-scan [] ip d = refl
find_range-scan (r ∷ []) ip d = elim (Bool-cases (ltb ip r.start)) [
  | inl below ↦
      find_range-below r [] ip below ∙ sym (scan_below r [] ip d (ltb→lt ip r.start below))
  | inr e ↦ find_range-first r [] ip e refl ∙ covering-scan r [] ip e refl
]
find_range-scan (r ∷ s ∷ ss) ip (v, l, d) =
    let ih = find_range-scan (s ∷ ss) ip d in
    elim (Bool-cases (ltb ip r.start)) [
      | inl below ↦
          find_range-below r (s ∷ ss) ip below
          ∙ sym (scan_below r (s ∷ ss) ip (v, l, d) (ltb→lt ip r.start below))
      | inr e ↦ elim (Bool-cases (ltb ip s.start)) [
        | inl below ↦
            find_range-first r (s ∷ ss) ip e (rw below refl)
            ∙ covering-scan r (s ∷ ss) ip e (scan_below s ss ip d (ltb→lt ip s.start below))
        | inr f ↦
            find_range-skip r s ss ip e f
            ∙ ih
            ∙ sym (scan-skip r (s ∷ ss) ip (between r.end s.start ip l f))
      ]
    ]
  where
    between : (m n k : ℕ) → m < n → ltb k n ≡ false → m < k
    between m n k l f = ground arith
