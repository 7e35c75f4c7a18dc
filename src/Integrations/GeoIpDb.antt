-- ===== src/Integrations/GeoIpDb.antt =====
-- src/services/integrations/geoipdb.h and .cpp: countries by address, from a table of ranges. A
-- char of a country is a number; QChar::toUpper with toLatin1 is a parameter. std::sort is an
-- insertion sort, and std::upper_bound counts the elements that its test passes over.
pub mod Lookup
pub mod Loading
pub mod Parsing
use batorrent.Base.{
  Bool, List, Option, Text, [], drop, ends_with, false, get_elem?, get_or, if◌then◌else◌, is_empty,
  is_some, leb, length, ltb, max, min, none, not, some, starts_with, suc, take, trimmed, ℕ, ◌%◌,
  ◌&&◌, ◌*◌, ◌++◌, ◌+◌, ◌-◌, ◌==◌, ◌>>=◌, ◌^◌, ◌||◌, ◌∷◌,
}

abbrev pub value_or_zero : Option ℕ → ℕ
value_or_zero none = 0
value_or_zero (some v) = v

-- A point with no digit before it, with more than an octet holds, or after four octets.
abbrev pub bad_point : Option ℕ → ℕ → Bool
bad_point val octets = not (is_some val) || ltb 255 (value_or_zero val) || leb 4 octets

-- The loop of parseIpv4, over the text with a point at its end; `val` is none for -1. The shift
-- keeps 32 bits.
unfoldable pub parse_loop : Text → ℕ → ℕ → Option ℕ → Option ℕ
parse_loop [] acc octets val = if octets == 4 then some acc else none
parse_loop (c ∷ cs) acc octets val =
    let next = parse_loop cs (acc * 256 % 2 ^ 32 + value_or_zero val) (suc octets) none in
    let v = value_or_zero val * 10 + (c - b'0') in
    let more = parse_loop cs acc octets (some v) in
    if c == b'.'
    then if bad_point val octets then none else next
    else if leb b'0' c && leb c b'9'
    then if ltb 255 v then none else more
    else none

unfoldable pub parse_ipv4 : Text → Option ℕ
unfolding parse_loop
parse_ipv4 s = parse_loop (s ++ b'.' ∷ []) 0 0 none

pub record Range : Type 0 where
  pub start : ℕ
  pub end : ℕ
  pub cc : ℕ × ℕ

-- split('\n', SkipEmptyParts), with the part so far.
unfoldable pub split_lines : Text → Text → List Text
split_lines part [] = if is_empty part then [] else part ∷ []
split_lines part (c ∷ cs) =
    let others = split_lines [] cs in
    let longer = split_lines (part ++ c ∷ []) cs in
    if c == 10 then if is_empty part then others else part ∷ others else longer

-- The text before the first `c` and the text after it, if there is one.
unfoldable pub cut_at : ℕ → Text → Option (Text × Text)
cut_at c [] = none
cut_at c (x ∷ xs) =
    let rest = cut_at c xs in if x == c then some ([], xs) else rest >>= (λ r. some (x ∷ r.0, r.1))

unfoldable pub unquote : Text → Text
unfolding trimmed starts_with ends_with
unquote v =
    let t = trimmed v in
    let quote = b'"' ∷ [] in
    trimmed (
      if leb 2 (length t) && starts_with t quote && ends_with t quote
      then take (length t - 2) (drop 1 t)
      else t)

abbrev pub has_colon : Text → Bool
has_colon [] = false
has_colon (c ∷ cs) = c == b':' || has_colon cs

module _ (upper_latin1 : ℕ → ℕ) where
  -- The range of the two addresses, in their order.
  abbrev pub range_of : ℕ → ℕ → ℕ → ℕ → Range
  range_of a b c0 c1 = record {
    start = min a b;
    end = max a b;
    cc = (upper_latin1 c0, upper_latin1 c1);
  }

  unfoldable pub range_of_fields : Text → Text → Text → Option Range
  unfolding parse_ipv4
  range_of_fields s0 s1 sc =
      if has_colon s0 || not (length sc == 2)
      then none
      else parse_ipv4 s0
        >>= (λ a. parse_ipv4 s1 >>= (λ b. some (range_of a b (get_or sc 0 0) (get_or sc 1 0))))

  unfoldable pub range_of_line : Text → Option Range
  unfolding cut_at unquote range_of_fields
  range_of_line line = cut_at b',' line >>= (λ f.
      cut_at b',' f.1 >>= (λ g. range_of_fields (unquote f.0) (unquote g.0) (unquote g.1)))

  unfoldable pub parse_lines : List Text → List Range
  unfolding range_of_line
  parse_lines [] = []
  parse_lines (l ∷ ls) = elim (range_of_line l) [
    | none ↦ parse_lines ls
    | some r ↦ r ∷ parse_lines ls
  ]

unfoldable pub insert_range : Range → List Range → List Range
insert_range r [] = r ∷ []
insert_range r (x ∷ xs) = if leb r.start x.start then r ∷ x ∷ xs else x ∷ insert_range r xs

unfoldable pub sort_ranges : List Range → List Range
unfolding insert_range
sort_ranges [] = []
sort_ranges (r ∷ rs) = insert_range r (sort_ranges rs)

-- The table that replaces the old one.
unfoldable pub load_csv : (ℕ → ℕ) → Text → List Range
unfolding split_lines parse_lines sort_ranges
load_csv upper_latin1 csv = sort_ranges (parse_lines upper_latin1 (split_lines [] csv))

-- std::upper_bound: how many ranges stand before the first that starts past the address.
unfoldable pub upper_bound : ℕ → List Range → ℕ
upper_bound ip [] = 0
upper_bound ip (r ∷ rs) = if ltb ip r.start then 0 else suc (upper_bound ip rs)

abbrev pub covering : ℕ → Option Range → Option Range
covering ip none = none
covering ip (some r) = if leb ip r.end then some r else none

unfoldable pub find_range : List Range → ℕ → Option Range
unfolding upper_bound
find_range ranges ip =
    let it = upper_bound ip ranges in
    if it == 0 then none else covering ip (get_elem? ranges (it - 1))

unfoldable pub lookup_country : List Range → ℕ → Option (ℕ × ℕ)
unfolding find_range
lookup_country ranges ip = find_range ranges ip >>= (λ r. some r.cc)

unfoldable pub in_country : List Range → ℕ → ℕ → ℕ → Bool
unfolding find_range
in_country ranges ip c0 c1 = elim (find_range ranges ip) [
  | none ↦ false
  | some r ↦ r.cc.0 == c0 && r.cc.1 == c1
]

-- The country of a text, empty if there is none.
unfoldable pub country : List Range → Text → Text
unfolding parse_ipv4 find_range
country ranges ipv4 = elim (parse_ipv4 ipv4) [
  | none ↦ []
  | some ip ↦ elim (find_range ranges ip) [ none ↦ [] | some r ↦ r.cc.0 ∷ r.cc.1 ∷ [] ]
]
