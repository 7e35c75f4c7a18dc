-- ===== src/Tests/Integrations.antt =====
-- Runs of src/services/integrations at fixed inputs.
use batorrent.Base.{List, Text, [], arith, codes, inr, refl, some, ℕ, ◌≡◌}
use batorrent.Integrations.GeoIpDb.{
  Range, parse_ipv4, parse_lines, split_lines, load_csv, find_range, lookup_country,
}
use batorrent.Integrations.GeoIpDb.Lookup.{scan}
use batorrent.Integrations.GeoIpDb.Loading.{AreApart, find_range-load_csv}
use batorrent.Integrations.GeoIpDb.Parsing.{dotted, parse_ipv4-dotted}

abbrev same : ℕ → ℕ
same c = c

abbrev two_lines : Text
two_lines = codes "0.0.1.0,0.0.1.9,BR\n\"0.0.0.9\",\"0.0.0.2\",PT\n::1,::2,US\n"

abbrev in_order : List Range
in_order = load_csv same two_lines

brazil : lookup_country in_order 258 ≡ some (b'B', b'R')
unfolding load_csv lookup_country
brazil = refl

apart : AreApart (parse_lines same (split_lines [] two_lines))
unfolding parse_lines split_lines
apart = (omega arith, (inr (omega arith), tt), (omega arith, tt, tt))

find_range-load_csv_example :
    find_range (load_csv same two_lines) 5 ≡ scan (parse_lines same (split_lines [] two_lines)) 5
find_range-load_csv_example = find_range-load_csv same two_lines 5 apart

parse_ipv4-dotted_example : parse_ipv4 (dotted 192 168 0 1) ≡ some 3232235521
parse_ipv4-dotted_example =
    parse_ipv4-dotted 192 168 0 1 (omega arith) (omega arith) (omega arith) (omega arith)

abbrev wide : Range
wide = record { start = 1; end = 9; cc = (1, 1) }

abbrev narrow : Range
narrow = record { start = 2; end = 3; cc = (2, 2) }
