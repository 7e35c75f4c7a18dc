-- ===== src/Discovery/TrackerScrape/Batches.antt =====
-- The batches of src/services/discovery/trackerscrape.cpp, and the hashes that signals count.
use batorrent.Base.{
  List, Option, Text, [], ap, append_assoc, arith, drop, get_or, if_cases, length, length-drop, ltb,
  none, not, refl, some, suc, sym, take, take-append-drop, zero, ℕ, ◌*◌, ◌++◌, ◌+◌, ◌<◌, ◌==◌, ◌||◌,
  ◌∙◌, ◌∷◌, ◌≡◌, ◌≤◌,
}
use batorrent.Discovery.TrackerScrape.{
  Exchange, ExchangeOutput, sends, counted, ends_exchange, Counts, batches_of, max_per_scrape,
  pairs, counts_from, parse_scrape, get32, action_scrape,
}

abbrev pub flat : List (List Text) → List Text
flat [] = []
flat (b ∷ bs) = b ++ flat bs

abbrev pub keys : List (Text × Counts) → List Text
keys [] = []
keys ((k, c) ∷ ps) = k ∷ keys ps

-- The hashes that were counted, in the order of the signals.
abbrev pub counted_keys : List ExchangeOutput → List Text
counted_keys [] = []
counted_keys (counted ps ∷ os) = keys ps ++ counted_keys os
counted_keys (_ ∷ os) = counted_keys os

abbrev pub taken : Option ℕ → ℕ
taken none = 0
taken (some b) = b

-- The hashes of the batch that is asked for and of those after it.
abbrev pub waiting : Exchange → List Text
waiting s = flat (drop (taken s.batch) s.batches)

drop_less :
    (n k : ℕ) (h : Text) (hs : List Text)
    → length (h ∷ hs) ≤ suc n
    → length (drop (suc k) (h ∷ hs)) ≤ n
drop_less n k h hs l = omega (arith, length-drop k hs)

-- There are rounds enough for the batches to hold all hashes.
pub flat-batches_of : (n : ℕ) (hs : List Text) → length hs ≤ n → flat (batches_of n hs) ≡ hs
flat-batches_of zero [] l = refl
flat-batches_of zero (h ∷ hs) l = ground arith
flat-batches_of (suc n) [] l = refl
flat-batches_of (suc n) (h ∷ hs) l =
    ap (λ r. take max_per_scrape (h ∷ hs) ++ r)
      (flat-batches_of n (drop max_per_scrape (h ∷ hs)) (drop_less n 69 h hs l))
    ∙ take-append-drop max_per_scrape (h ∷ hs)

pub counted_keys-append :
    (os : List ExchangeOutput) (o : ExchangeOutput)
    → counted_keys (os ++ o ∷ []) ≡ counted_keys os ++ counted_keys (o ∷ [])
counted_keys-append [] o = refl
counted_keys-append (counted ps ∷ os) o =
    ap (λ r. keys ps ++ r) (counted_keys-append os o)
    ∙ sym (append_assoc (keys ps) (counted_keys os) (counted_keys (o ∷ [])))
counted_keys-append (sends d ∷ os) o = counted_keys-append os o
counted_keys-append (ends_exchange ∷ os) o = counted_keys-append os o

pub drop_next :
    (b : ℕ) (bs : List (List Text)) → b < length bs → drop b bs ≡ get_or bs b [] ∷ drop (suc b) bs
drop_next zero [] l = ground arith
drop_next (suc b) [] l = ground arith
drop_next zero (x ∷ bs) l = refl
drop_next (suc b) (x ∷ bs) l = drop_next b bs (omega arith)

length-counts_from : (reply : List ℕ) (i n : ℕ) → length (counts_from reply i n) ≡ n
length-counts_from reply i zero = refl
length-counts_from reply i (suc n) = ap suc (length-counts_from reply (suc i) n)

pub keys-pairs :
    (ks : List Text) (cs : List Counts) → length cs ≡ length ks → keys (pairs ks cs) ≡ ks
keys-pairs [] cs e = refl
keys-pairs (k ∷ ks) [] e = ground arith
keys-pairs (k ∷ ks) (c ∷ cs) e = ap (λ r. k ∷ r) (keys-pairs ks cs (omega arith))

-- A reply that counts anything counts each hash that was asked for.
pub parse_scrape_all :
    (reply : List ℕ) (tx n : ℕ) (c : Counts) (cs : List Counts)
    → parse_scrape reply tx n ≡ c ∷ cs
    → length (c ∷ cs) ≡ n
unfolding parse_scrape
parse_scrape_all reply tx n c cs =
    if_cases (λ got. got ≡ c ∷ cs → length (c ∷ cs) ≡ n)
      (ltb (length reply) (8 + 12 * n)
        || not (get32 reply 0 == action_scrape)
        || not (get32 reply 4 == tx))
      (λ _ e. cc) (λ _ e. ap length (sym e) ∙ length-counts_from reply 0 n)
