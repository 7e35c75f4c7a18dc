-- ===== src/Integrations/GeoIpDb/Loading.antt =====
-- The table that src/services/integrations/geoipdb.cpp loads, and what is found in it.
use batorrent.Base.{
  All, List, Text, [], ap, arith, false, if_cases, if◌then◌else◌, inl, inr, leb, leb→le, refl, some,
  ℕ, ◌&&◌, ◌<◌, ◌∙◌, ◌∷◌, ◌≡◌, ◌≤◌, ◌⊎◌,
}
use batorrent.Integrations.GeoIpDb.{
  Range, find_range, insert_range, sort_ranges, parse_lines, split_lines, load_csv,
}
use batorrent.Integrations.GeoIpDb.Lookup.{scan, EndsBefore, AreDisjoint, find_range-scan}

-- Ranges that do not overlap, in any order.
abbrev pub Apart : Range → Range → Type 0
Apart r s = (r.end < s.start) ⊎ (s.end < r.start)

abbrev pub AreApart : List Range → Type 0
AreApart [] = Unit
AreApart (r ∷ rs) = (r.start ≤ r.end) × All (Apart r) rs × AreApart rs

-- A range that is inserted is found, and does not hide another.
scan-insert_range :
    (r : Range) (rs : List Range) (ip : ℕ)
    → r.start ≤ r.end
    → All (Apart r) rs
    → scan (insert_range r rs) ip ≡ scan (r ∷ rs) ip
unfolding scan insert_range
scan-insert_range r [] ip v a = refl
scan-insert_range r (x ∷ xs) ip v (a, others) =
    ground (arith, a, scan-insert_range r xs ip v others)

insert_range-EndsBefore :
    (x r : Range) (xs : List Range)
    → x.end < r.start
    → EndsBefore x xs
    → EndsBefore x (insert_range r xs)
unfolding insert_range
insert_range-EndsBefore x r [] h b = h
insert_range-EndsBefore x r (y ∷ ys) h b =
    if_cases (EndsBefore x) (leb r.start y.start) (λ _. h) (λ _. b)

insert_range-AreDisjoint :
    (r : Range) (rs : List Range)
    → r.start ≤ r.end
    → All (Apart r) rs
    → AreDisjoint rs
    → AreDisjoint (insert_range r rs)
unfolding insert_range
insert_range-AreDisjoint r [] v a d = (v, tt, tt)
insert_range-AreDisjoint r (x ∷ xs) v (a, others) (w, b, d) =
    if_cases AreDisjoint (leb r.start x.start)
      (λ e. (v, before a w (leb→le r.start x.start e), (w, b, d)))
      (λ e. (
        w,
        insert_range-EndsBefore x r xs (after a v e) b,
        insert_range-AreDisjoint r xs v others d,
      ))
  where
    before : Apart r x → x.start ≤ x.end → r.start ≤ x.start → r.end < x.start
    before (inl h) w l = h
    before (inr h) w l = absurd (omega arith)

    after : Apart r x → r.start ≤ r.end → leb r.start x.start ≡ false → x.end < r.start
    after (inr h) v e = h
    after (inl h) v e = ground arith

insert_range-Apart :
    (x r : Range) (rs : List Range)
    → Apart x r
    → All (Apart x) rs
    → All (Apart x) (insert_range r rs)
unfolding insert_range
insert_range-Apart x r [] a h = (a, tt)
insert_range-Apart x r (y ∷ ys) a (b, h) =
    if_cases (All (Apart x)) (leb r.start y.start) (λ _. (a, (b, h)))
      (λ _. (b, insert_range-Apart x r ys a h))

sort_ranges-Apart :
    (x : Range) (rs : List Range) → All (Apart x) rs → All (Apart x) (sort_ranges rs)
unfolding sort_ranges
sort_ranges-Apart x [] h = tt
sort_ranges-Apart x (r ∷ rs) (a, h) =
    insert_range-Apart x r (sort_ranges rs) a (sort_ranges-Apart x rs h)

sort_ranges-AreDisjoint : (rs : List Range) → AreApart rs → AreDisjoint (sort_ranges rs)
unfolding sort_ranges
sort_ranges-AreDisjoint [] h = tt
sort_ranges-AreDisjoint (r ∷ rs) (v, a, h) =
    insert_range-AreDisjoint r (sort_ranges rs) v (sort_ranges-Apart r rs a)
      (sort_ranges-AreDisjoint rs h)

scan-sort_ranges : (rs : List Range) (ip : ℕ) → AreApart rs → scan (sort_ranges rs) ip ≡ scan rs ip
unfolding sort_ranges scan
scan-sort_ranges [] ip h = refl
scan-sort_ranges (r ∷ rs) ip (v, a, h) =
    scan-insert_range r (sort_ranges rs) ip v (sort_ranges-Apart r rs a)
    ∙ ap (λ o. if leb r.start ip && leb ip r.end then some r else o) (scan-sort_ranges rs ip h)

-- A lookup in a table that was loaded finds the range of the file that has the address, if there is
-- one, when the ranges of the file do not overlap.
pub find_range-load_csv :
    (upper_latin1 : ℕ → ℕ) (csv : Text) (ip : ℕ)
    → AreApart (parse_lines upper_latin1 (split_lines [] csv))
    → find_range (load_csv upper_latin1 csv) ip
      ≡ scan (parse_lines upper_latin1 (split_lines [] csv)) ip
unfolding load_csv
find_range-load_csv upper_latin1 csv ip h =
    let rs = parse_lines upper_latin1 (split_lines [] csv) in
    find_range-scan (sort_ranges rs) ip (sort_ranges-AreDisjoint rs h) ∙ scan-sort_ranges rs ip h
