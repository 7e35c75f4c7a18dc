-- ===== src/Integrations/GeoIpDb/Parsing.antt =====
-- Addresses in src/services/integrations/geoipdb.cpp: what is printed with points is read back.
use batorrent.Base.{
  Bool-cases, Option, Text, [], ap, append_assoc, arith, false, if◌then◌else◌, inl, inr, leb, ltb,
  ltb→lt, none, refl, some, suc, true, ℕ, ◌%◌, ◌&&◌, ◌*◌, ◌++◌, ◌+◌, ◌-◌, ◌/◌, ◌<◌, ◌==◌, ◌^◌, ◌∙◌,
  ◌∷◌, ◌≡◌, ◌≤◌,
}
use batorrent.Integrations.GeoIpDb.{value_or_zero, bad_point, parse_loop, parse_ipv4}

-- An octet in decimal, with no zero in front.
abbrev pub decimal : ℕ → Text
decimal n =
    if ltb n 10
    then (b'0' + n) ∷ []
    else if ltb n 100
    then (b'0' + n / 10) ∷ (b'0' + n % 10) ∷ []
    else (b'0' + n / 100) ∷ (b'0' + n / 10 % 10) ∷ (b'0' + n % 10) ∷ []

parse_digit :
    (d : ℕ) (cs : Text) (acc k : ℕ) (val : Option ℕ)
    → d < 10
    → value_or_zero val * 10 + d ≤ 255
    → parse_loop ((b'0' + d) ∷ cs) acc k val
      ≡ parse_loop cs acc k (some (value_or_zero val * 10 + d))
unfolding parse_loop
parse_digit d cs acc k val h l =
    rw (not_point d, digit d h, taken d (value_or_zero val) l, minus d) refl
  where
    not_point : (d : ℕ) → (b'0' + d == b'.') ≡ false
    not_point d = ground arith

    digit : (d : ℕ) → d < 10 → leb b'0' (b'0' + d) && leb (b'0' + d) b'9' ≡ true
    digit d h = ground arith

    minus : (d : ℕ) → b'0' + d - b'0' ≡ d
    minus d = omega arith

    taken : (d v : ℕ) → v * 10 + d ≤ 255 → ltb 255 (v * 10 + (b'0' + d - b'0')) ≡ false
    taken d v l = ground arith

parse_point :
    (cs : Text) (acc k v : ℕ)
    → v ≤ 255
    → k < 4
    → parse_loop (b'.' ∷ cs) acc k (some v) ≡ parse_loop cs (acc * 256 % 2 ^ 32 + v) (suc k) none
unfolding parse_loop
parse_point cs acc k v h l = rw (good v k h l) refl
  where
    good : (v k : ℕ) → v ≤ 255 → k < 4 → bad_point (some v) k ≡ false
    good v k h l = ground arith

parse_octet :
    (n : ℕ) (rest : Text) (acc k : ℕ)
    → n < 256
    → k < 4
    → parse_loop (decimal n ++ b'.' ∷ rest) acc k none
      ≡ parse_loop rest (acc * 256 % 2 ^ 32 + n) (suc k) none
parse_octet n rest acc k h l = elim (Bool-cases (ltb n 10)) [
  | inl e ↦ rw e (
      parse_digit n (b'.' ∷ rest) acc k none (ltb→lt n 10 e) (omega arith)
      ∙ ends (0 * 10 + n) (omega arith))
  | inr e ↦ elim (Bool-cases (ltb n 100)) [
    | inl f ↦
        let tens = 0 * 10 + n / 10 in
        let below = ltb→lt n 100 f in
        rw (e, f)
          (parse_digit (n / 10) ((b'0' + n % 10) ∷ b'.' ∷ rest) acc k none (omega arith)
              (omega arith)
            ∙ parse_digit (n % 10) (b'.' ∷ rest) acc k (some tens) (omega arith) (omega arith)
            ∙ ends (tens * 10 + n % 10) (omega arith))
    | inr f ↦
        let hundreds = 0 * 10 + n / 100 in
        let tens = hundreds * 10 + n / 10 % 10 in
        rw (e, f)
          (parse_digit (n / 100) ((b'0' + n / 10 % 10) ∷ (b'0' + n % 10) ∷ b'.' ∷ rest) acc k none
              (omega arith) (omega arith)
            ∙ parse_digit (n / 10 % 10) ((b'0' + n % 10) ∷ b'.' ∷ rest) acc k (some hundreds)
                (omega arith) (omega arith)
            ∙ parse_digit (n % 10) (b'.' ∷ rest) acc k (some tens) (omega arith) (omega arith)
            ∙ ends (tens * 10 + n % 10) (omega arith))
  ]
]
  where
    ends :
        (v : ℕ)
        → v ≡ n
        → parse_loop (b'.' ∷ rest) acc k (some v)
          ≡ parse_loop rest (acc * 256 % 2 ^ 32 + n) (suc k) none
    ends v e =
        parse_point rest acc k v (omega (arith, e)) l
        ∙ ap (λ u. parse_loop rest (acc * 256 % 2 ^ 32 + u) (suc k) none) e

-- Four octets, printed with points between them.
abbrev pub dotted : ℕ → ℕ → ℕ → ℕ → Text
dotted a b c d = decimal a ++ (b'.' ∷ (decimal b ++ (b'.' ∷ (decimal c ++ (b'.' ∷ decimal d)))))

-- An address that is printed is read back, as the number of 32 bits with the first octet highest.
pub parse_ipv4-dotted :
    (a b c d : ℕ)
    → a < 256
    → b < 256
    → c < 256
    → d < 256
    → parse_ipv4 (dotted a b c d) ≡ some (a * 16777216 + b * 65536 + c * 256 + d)
unfolding parse_ipv4
parse_ipv4-dotted a b c d ha hb hc hd =
    let end : Text = b'.' ∷ [] in
    let cd : Text = decimal c ++ (b'.' ∷ (decimal d ++ end)) in
    let x = 0 * 256 % 2 ^ 32 + a in
    let y = x * 256 % 2 ^ 32 + b in
    let z = y * 256 % 2 ^ 32 + c in
    ap (λ t. parse_loop t 0 0 none) (points a b c d)
    ∙ parse_octet a (decimal b ++ (b'.' ∷ cd)) 0 0 ha (omega arith)
    ∙ parse_octet b cd x 1 hb (omega arith)
    ∙ parse_octet c (decimal d ++ end) y 2 hc (omega arith)
    ∙ parse_octet d [] z 3 hd (omega arith)
    ∙ ap some (omega arith)
  where
    points :
        (a b c d : ℕ)
        → dotted a b c d ++ (b'.' ∷ [])
          ≡ decimal a
            ++ (b'.' ∷ (decimal b ++ (b'.' ∷ (decimal c ++ (b'.' ∷ (decimal d ++ (b'.' ∷ [])))))))
    points a b c d = simp append_assoc
