-- ===== src/Discovery/TrackerScrape/Order.antt =====
-- An exchange of src/services/discovery/trackerscrape.cpp counts each hash once, in the order of the
-- hashes.
use batorrent.Base.{
  Bool, List, Option, Text, [], ap, append-nil, append_assoc, arith, drop, get_or, if_cases, inl,
  inr, leb, length, none, not, refl, some, subst, suc, sym, true, ℕ, ◌++◌, ◌<◌, ◌∙◌, ◌∷◌, ◌≡◌, ◌≤◌,
  ◌⊎◌,
}
use batorrent.Discovery.TrackerScrape.{
  Exchange, sends, counted, ends_exchange, Counts, pairs, parse_scrape, parse_connect, ask_tracker,
  puts, finish, next_index, send, on_host_found, next_batch, on_connect_reply, on_counts, on_reply,
  on_datagram, request_of,
}
use batorrent.Discovery.TrackerScrape.Scraper.{Event, looked_up, datagram, timeout, handle}
use batorrent.Discovery.TrackerScrape.Batches.{
  flat, keys, counted_keys, taken, waiting, flat-batches_of, counted_keys-append, drop_next,
  keys-pairs, parse_scrape_all,
}

-- While it is not over, the batch that is asked for is there.
abbrev InRange : Option ℕ → ℕ → Type 0
InRange none n = 0 ≤ n
InRange (some b) n = b < n

abbrev Inv : List Text → Exchange → Type 0
Inv hs s =
    (counted_keys s.outputs ++ waiting s ≡ hs)
    × ((s.is_done ≡ true) ⊎ InRange s.batch (length s.batches))

puts_sends-Inv : (hs : List Text) (d : List ℕ) (s : Exchange) → Inv hs s → Inv hs (puts (sends d) s)
puts_sends-Inv hs d s (c, r) = (
  ap (λ k. k ++ waiting s)
        (counted_keys-append s.outputs (sends d) ∙ append-nil (counted_keys s.outputs))
      ∙ c,
  r,
)

finish-Inv :
    (hs : List Text) (s : Exchange) → counted_keys s.outputs ++ waiting s ≡ hs → Inv hs (finish s)
unfolding finish
finish-Inv hs s c =
    if_cases (Inv hs) s.is_done (λ d. (c, inl d))
      (λ _. (
        ap (λ k. k ++ waiting s)
              (counted_keys-append s.outputs ends_exchange ∙ append-nil (counted_keys s.outputs))
            ∙ c,
        inl refl,
      ))

module _ (from_hex : Text → List ℕ) where
  send-Inv :
      (hs : List Text) (random : ℕ) (s : Exchange) → Inv hs s → Inv hs (send from_hex random s)
  unfolding send
  send-Inv hs random s i =
      let t = record s { tx = random } in puts_sends-Inv hs (request_of from_hex t) t i

  -- The batch that was asked for is settled.
  next_batch-Inv :
      (hs : List Text) (random : ℕ) (s : Exchange)
      → counted_keys s.outputs ++ flat (drop (next_index s.batch) s.batches) ≡ hs
      → Inv hs (next_batch from_hex random s)
  unfolding next_batch
  next_batch-Inv hs random s c =
      let t = record s { batch = some (next_index s.batch) } in
      if_cases (Inv hs) (leb (length s.batches) (next_index s.batch)) (λ _. finish-Inv hs t c)
        (λ n. send-Inv hs random t (c, inr (ground arith)))

  on_connect_reply-Inv :
      (hs : List Text) (o : Option ℕ) (random : ℕ) (s : Exchange)
      → s.batch ≡ none
      → Inv hs s
      → Inv hs (on_connect_reply from_hex o random s)
  unfolding on_connect_reply
  on_connect_reply-Inv hs none random s e i = i
  on_connect_reply-Inv hs (some c) random s e (i, r) =
      next_batch-Inv hs random (record s { cid = c })
        (subst (λ o. counted_keys s.outputs ++ flat (drop (next_index o) s.batches) ≡ hs) (sym e)
          (subst (λ o. counted_keys s.outputs ++ flat (drop (taken o) s.batches) ≡ hs) e i))

  -- The batch moves from what waits to what is counted.
  counts_batch :
      (hs : List Text) (b : ℕ) (ps : List (Text × Counts)) (s : Exchange)
      → b < length s.batches
      → keys ps ≡ get_or s.batches b []
      → counted_keys s.outputs ++ flat (drop b s.batches) ≡ hs
      → counted_keys (s.outputs ++ counted ps ∷ []) ++ flat (drop (suc b) s.batches) ≡ hs
  counts_batch hs b ps s l k c =
      let before = counted_keys s.outputs in
      let after = flat (drop (suc b) s.batches) in
      let one = append-nil (keys ps) ∙ k in
      ap (λ x. x ++ after) (counted_keys-append s.outputs (counted ps) ∙ ap (λ x. before ++ x) one)
      ∙ append_assoc before (get_or s.batches b []) after
      ∙ ap (λ bs. before ++ flat bs) (sym (drop_next b s.batches l))
      ∙ c

  on_counts-Inv :
      (hs : List Text) (got : List Counts) (random b : ℕ) (s : Exchange)
      → s.batch ≡ some b
      → b < length s.batches
      → ((c : Counts) (cs : List Counts)
          → got ≡ c ∷ cs
          → length (c ∷ cs) ≡ length (get_or s.batches b []))
      → Inv hs s
      → Inv hs (on_counts from_hex (get_or s.batches b []) got random s)
  unfolding on_counts
  on_counts-Inv hs [] random b s e l n i = i
  on_counts-Inv hs (c ∷ cs) random b s e l n (i, r) =
      let ps = pairs (get_or s.batches b []) (c ∷ cs) in
      let k = keys-pairs (get_or s.batches b []) (c ∷ cs) (n c cs refl) in
      let held = subst (λ o. counted_keys s.outputs ++ flat (drop (taken o) s.batches) ≡ hs) e i in
      next_batch-Inv hs random (puts (counted ps) s) (
        subst
          (λ o.
            counted_keys (s.outputs ++ counted ps ∷ []) ++ flat (drop (next_index o) s.batches)
            ≡ hs)
          (sym e) (counts_batch hs b ps s l k held))

  on_reply-Inv :
      (hs : List Text) (o : Option ℕ) (reply : List ℕ) (random : ℕ) (s : Exchange)
      → s.batch ≡ o
      → InRange o (length s.batches)
      → Inv hs s
      → Inv hs (on_reply from_hex o reply random s)
  unfolding on_reply
  on_reply-Inv hs none reply random s e l i =
      on_connect_reply-Inv hs (parse_connect reply s.tx) random s e i
  on_reply-Inv hs (some b) reply random s e l i =
      let n = length (get_or s.batches b []) in
      on_counts-Inv hs (parse_scrape reply s.tx n) random b s e l (parse_scrape_all reply s.tx n) i

  on_datagram-Inv :
      (hs : List Text) (reply : List ℕ) (random : ℕ) (s : Exchange)
      → Inv hs s
      → Inv hs (on_datagram from_hex reply random s)
  unfolding on_datagram
  on_datagram-Inv hs reply random s (i, r) =
      if_cases (Inv hs) s.is_done (λ _. (i, r))
        (λ n. elim r [
          | inl d ↦ let both = sym d ∙ n in cc
          | inr l ↦ on_reply-Inv hs s.batch reply random s refl l (i, inr l)
        ])

  on_host_found-Inv :
      (hs : List Text) (has_address is_bound : Bool) (random : ℕ) (s : Exchange)
      → Inv hs s
      → Inv hs (on_host_found from_hex has_address is_bound random s)
  unfolding on_host_found
  on_host_found-Inv hs has_address is_bound random s i =
      if_cases (Inv hs) s.is_done (λ _. i)
        (λ _.
          if_cases (Inv hs) (not has_address) (λ _. finish-Inv hs s i.0)
            (λ _.
              if_cases (Inv hs) (not is_bound) (λ _. finish-Inv hs s i.0)
                (λ _. send-Inv hs random s i)))

  handle-Inv : (hs : List Text) (e : Event) (s : Exchange) → Inv hs s → Inv hs (handle from_hex e s)
  unfolding handle
  handle-Inv hs (looked_up has_address is_bound random) s i =
      on_host_found-Inv hs has_address is_bound random s i
  handle-Inv hs (datagram reply random) s i = on_datagram-Inv hs reply random s i
  handle-Inv hs timeout s i = finish-Inv hs s i.0

  unfoldable pub handle_all : List Event → Exchange → Exchange
  unfolding handle
  handle_all [] s = s
  handle_all (e ∷ es) s = handle_all es (handle from_hex e s)

  handle_all-Inv :
      (hs : List Text) (es : List Event) (s : Exchange) → Inv hs s → Inv hs (handle_all es s)
  unfolding handle_all
  handle_all-Inv hs [] s i = i
  handle_all-Inv hs (e ∷ es) s i = handle_all-Inv hs es (handle from_hex e s) (handle-Inv hs e s i)

  ask_tracker-Inv : (hs : List Text) → Inv hs (ask_tracker hs)
  unfolding ask_tracker
  ask_tracker-Inv hs = (flat-batches_of (length hs) hs (omega arith), inr (omega arith))

  -- Whatever reaches the socket of an exchange, of whoever and in whatever order, with its timer and
  -- the lookup: the hashes that were counted, in the order of the signals, and then those of the
  -- batches that are not settled, are the hashes that the tracker was to be asked for.
  pub counted-InOrder :
      (hs : List Text) (es : List Event)
      → (let s = handle_all es (ask_tracker hs) in counted_keys s.outputs ++ waiting s ≡ hs)
  counted-InOrder hs es = (handle_all-Inv hs es (ask_tracker hs) (ask_tracker-Inv hs)).0
