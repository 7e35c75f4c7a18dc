-- ===== src/Discovery/TrackerScrape/Wire.antt =====
-- The datagrams of src/services/discovery/trackerscrape.cpp against replies written as BEP 15 says.
use batorrent.Base.{
  All, List, [], ap, append_assoc, arith, false, get_or-append_right, if_cases, length,
  length-append, ltb, map, not, pos, refl, some, suc, sym, ℕ, ℤ, ◌%◌, ◌*◌, ◌++◌, ◌+◌, ◌/◌, ◌<◌,
  ◌==◌, ◌||◌, ◌∙◌, ◌∷◌, ◌≡◌, ◌≤◌,
}
use batorrent.Discovery.TrackerScrape.{
  Counts, put32, put64, get32, byte_of, to_int, counts_from, parse_scrape, parse_connect,
  action_scrape, action_connect,
}

-- Seeders, completed and leechers of one hash.
pub record Swarm : Type 0 where
  pub seeders : ℕ
  pub completed : ℕ
  pub leechers : ℕ

abbrev pub entry : Swarm → List ℕ
entry w = put32 (put32 (put32 [] w.seeders) w.completed) w.leechers

abbrev pub entries : List Swarm → List ℕ
entries [] = []
entries (w ∷ ws) = entry w ++ entries ws

abbrev pub scrape_reply : ℕ → List Swarm → List ℕ
scrape_reply tx ws = put32 (put32 [] action_scrape) tx ++ entries ws

abbrev pub connect_reply : ℕ → ℕ → List ℕ
connect_reply tx cid = put64 (put32 (put32 [] action_connect) tx) cid

-- That the numbers are ints.
abbrev pub AreInts : Swarm → Type 0
AreInts w = (w.seeders < 2147483648) × (w.leechers < 2147483648)

abbrev pub counts_of : Swarm → Counts
counts_of w = record { seeders = pos w.seeders; leechers = pos w.leechers }

-- The four bytes of a quint32 amount to it.
four_bytes :
    (v : ℕ)
    → v < 4294967296
    → byte_of v 16777216 * 16777216 + byte_of v 65536 * 65536 + byte_of v 256 * 256 + v % 256 ≡ v
four_bytes v h = omega arith

get32-append :
    (pre xs : List ℕ) (at k : ℕ) → at ≡ length pre + k → get32 (pre ++ xs) at ≡ get32 xs k
get32-append pre xs at k e = rw (
  get_or-append_right pre xs at k 0 e,
  get_or-append_right pre xs (at + 1) (k + 1) 0 (omega arith),
  get_or-append_right pre xs (at + 2) (k + 2) 0 (omega arith),
  get_or-append_right pre xs (at + 3) (k + 3) 0 (omega arith),
)

to_int_small : (v : ℕ) → v < 2147483648 → to_int v ≡ pos v
to_int_small v h = ground arith

length-entries : (ws : List Swarm) → length (entries ws) ≡ 12 * length ws
length-entries [] = refl
length-entries (w ∷ ws) = omega (arith, length-entries ws)

same_counts :
    {s t l m : ℤ} {cs ds : List Counts}
    → s ≡ t
    → l ≡ m
    → cs ≡ ds
    → record { seeders = s; leechers = l } ∷ cs ≡ record { seeders = t; leechers = m } ∷ ds
same_counts p q r = rw (p, q, r)

counts_from-entries :
    (pre rest : List ℕ) (i : ℕ) (ws : List Swarm)
    → length pre ≡ 8 + 12 * i
    → All AreInts ws
    → counts_from (pre ++ (entries ws ++ rest)) i (length ws) ≡ map counts_of ws
counts_from-entries pre rest i [] l a = refl
counts_from-entries pre rest i (w ∷ ws) l a =
    let xs = entry w ++ (entries ws ++ rest) in
    let first : get32 (pre ++ xs) (8 + 12 * i) ≡ w.seeders =
      get32-append pre xs (8 + 12 * i) 0 (omega arith) ∙ four_bytes w.seeders (omega arith) in
    let third : get32 (pre ++ xs) (8 + 12 * i + 8) ≡ w.leechers =
      get32-append pre xs (8 + 12 * i + 8) 8 (omega arith) ∙ four_bytes w.leechers (omega arith) in
    let more =
      ap (λ r. counts_from r (suc i) (length ws))
        (sym (append_assoc pre (entry w) (entries ws ++ rest)))
      ∙ counts_from-entries (pre ++ entry w) rest (suc i) ws
          (omega (arith, length-append pre (entry w))) a.1 in
    same_counts (ap to_int first ∙ to_int_small w.seeders a.0.0)
      (ap to_int third ∙ to_int_small w.leechers a.0.1) more

is_own :
    (len need action own tx : ℕ)
    → need ≤ len
    → own ≡ tx
    → (ltb len need || not (action == action) || not (own == tx)) ≡ false
is_own len need action own tx l e = ground arith

-- What a tracker writes as a reply to the transaction, with anything behind it, is read as the
-- seeders and leechers of the hashes in their order; the transaction is a quint32 and the numbers
-- are below 2 ^ 31.
pub parse_scrape-scrape_reply :
    (tx : ℕ) (ws : List Swarm) (rest : List ℕ)
    → tx < 4294967296
    → All AreInts ws
    → parse_scrape (scrape_reply tx ws ++ rest) tx (length ws) ≡ map counts_of ws
unfolding parse_scrape
parse_scrape-scrape_reply tx ws rest t a =
    let reply = scrape_reply tx ws ++ rest in
    let own : get32 reply 4 ≡ tx = four_bytes tx t in
    let long : 8 + 12 * length ws ≤ length reply =
      omega (arith, length-append (entries ws) rest, length-entries ws) in
    if_cases (λ got. got ≡ map counts_of ws)
      (ltb (length reply) (8 + 12 * length ws)
        || not (get32 reply 0 == action_scrape)
        || not (get32 reply 4 == tx))
      (λ h.
        let both =
          sym h
          ∙ is_own (length reply) (8 + 12 * length ws) action_scrape (get32 reply 4) tx long own in
        cc)
      (λ _. counts_from-entries (put32 (put32 [] action_scrape) tx) rest 0 ws refl a)

-- The connection id of a reply to the transaction is read back; the transaction is a quint32 and the
-- id a quint64.
pub parse_connect-connect_reply :
    (tx cid : ℕ)
    → tx < 4294967296
    → cid < 18446744073709551616
    → parse_connect (connect_reply tx cid) tx ≡ some cid
unfolding parse_connect
parse_connect-connect_reply tx cid t c =
    let reply = connect_reply tx cid in
    let own : get32 reply 4 ≡ tx = four_bytes tx t in
    let high : get32 reply 8 ≡ cid / 4294967296 = four_bytes (cid / 4294967296) (omega arith) in
    let low : get32 reply 12 ≡ cid % 4294967296 = four_bytes (cid % 4294967296) (omega arith) in
    if_cases (λ o. o ≡ some cid)
      (ltb (length reply) 16 || not (get32 reply 0 == action_connect) || not (get32 reply 4 == tx))
      (λ h.
        let both =
          sym h ∙ is_own (length reply) 16 action_connect (get32 reply 4) tx (omega arith) own in
        cc)
      (λ _. ap some (omega (arith, high, low)))
