-- ===== src/Discovery/TrackerScrape/Answered.antt =====
-- A tracker that answers each request of src/services/discovery/trackerscrape.cpp is counted in full.
use batorrent.Base.{List, Text, [], false, is_empty, map, some, suc, ℕ, ◌++◌, ◌∷◌, ◌≡◌}
use batorrent.Discovery.TrackerScrape.{
  Exchange, ExchangeOutput, sends, counted, Counts, connect_request, scrape_request,
}
use batorrent.Discovery.TrackerScrape.Scraper.{Event, datagram, handle}
use batorrent.Discovery.TrackerScrape.Wire.{Swarm, counts_of, scrape_reply, connect_reply}

-- All pairs that were counted.
abbrev pub counted_pairs : List ExchangeOutput → List (Text × Counts)
counted_pairs [] = []
counted_pairs (counted ps ∷ os) = ps ++ counted_pairs os
counted_pairs (_ ∷ os) = counted_pairs os

abbrev IsSome : List Text → Type 0
IsSome b = is_empty b ≡ false

module _ (from_hex : Text → List ℕ) (truth : Text → Swarm) (random : ℕ → ℕ) (cid : ℕ) where
  -- What the tracker knows of the hashes.
  abbrev pub known : List Text → List (Text × Counts)
  known [] = []
  known (h ∷ hs) = (h, counts_of (truth h)) ∷ known hs

  -- Its replies for the batches, of which the first was asked for with the `k`-th random number.
  abbrev pub replies : ℕ → List (List Text) → List Event
  replies k [] = []
  replies k (b ∷ bs) =
      datagram (scrape_reply (random k) (map truth b)) (random (suc k)) ∷ replies (suc k) bs

  abbrev at_batch : List (List Text) → ℕ → ℕ → List ExchangeOutput → Exchange
  at_batch bs k b outs = record {
    batches = bs;
    tx = random k;
    cid = cid;
    batch = some b;
    is_done = false;
    outputs = outs;
  }

  -- What the tracker answers to a datagram: BEP 15 has it repeat the transaction.
  pub data Answers : List ℕ → List ℕ → Type 0 where
    connects_you : (tx : ℕ) → Answers (connect_request tx) (connect_reply tx cid)
    counts_for :
        (tx : ℕ) (hs : List Text)
        → Answers (scrape_request cid tx (map from_hex hs)) (scrape_reply tx (map truth hs))

  -- The datagram that was sent last.
  abbrev pub last_sent : List ℕ → List ExchangeOutput → List ℕ
  last_sent d [] = d
  last_sent d (sends e ∷ os) = last_sent e os
  last_sent d (_ ∷ os) = last_sent d os

  -- Each datagram of a run answers the one that was sent last.
  abbrev pub AllAnswer : List Event → Exchange → Type 0
  AllAnswer [] s = Unit {0}
  AllAnswer (datagram reply r ∷ es) s =
      Answers (last_sent [] s.outputs) reply × AllAnswer es (handle from_hex (datagram reply r) s)
  AllAnswer (e ∷ es) s = AllAnswer es (handle from_hex e s)
