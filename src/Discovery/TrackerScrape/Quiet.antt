-- ===== src/Discovery/TrackerScrape/Quiet.antt =====
-- An exchange of src/services/discovery/trackerscrape.cpp that ends in time has counted every hash.
use batorrent.Base.{
  &&-left, &&-right, Bool, List, Option, Text, [], ap, append-nil, arith, drop, false, get_or,
  if_cases, inl, inr, leb, length, none, refl, some, suc, sym, true, zero, ℕ, ◌&&◌, ◌++◌, ◌∙◌, ◌∷◌,
  ◌≡◌, ◌≤◌, ◌⊎◌,
}
use batorrent.Discovery.TrackerScrape.{
  Exchange, counted, Counts, parse_scrape, parse_connect, ask_tracker, pairs, puts, finish,
  next_index, send, on_host_found, next_batch, on_connect_reply, on_counts, on_reply, on_datagram,
}
use batorrent.Discovery.TrackerScrape.Scraper.{Event, looked_up, datagram, timeout, handle}
use batorrent.Discovery.TrackerScrape.Batches.{taken, counted_keys, flat}
use batorrent.Discovery.TrackerScrape.Order.{handle_all, counted-InOrder}

-- Neither a failed lookup nor the end of the time.
abbrev pub is_quiet : Event → Bool
is_quiet (looked_up has_address is_bound random) = has_address && is_bound
is_quiet (datagram reply random) = true
is_quiet timeout = false

abbrev pub all_quiet : List Event → Bool
all_quiet [] = true
all_quiet (e ∷ es) = is_quiet e && all_quiet es

-- It is over only when there is no batch left.
abbrev EndsLast : Exchange → Type 0
EndsLast s = (s.is_done ≡ false) ⊎ (length s.batches ≤ taken s.batch)

flat-drop : (n : ℕ) (bs : List (List Text)) → length bs ≤ n → flat (drop n bs) ≡ []
flat-drop zero [] l = refl
flat-drop (suc n) [] l = refl
flat-drop zero (b ∷ bs) l = ground arith
flat-drop (suc n) (b ∷ bs) l = flat-drop n bs (omega arith)

finish-EndsLast : (s : Exchange) → length s.batches ≤ taken s.batch → EndsLast (finish s)
unfolding finish
finish-EndsLast s l = if_cases EndsLast s.is_done (λ _. inr l) (λ _. inr l)

module _ (from_hex : Text → List ℕ) where
  next_batch-EndsLast :
      (random : ℕ) (s : Exchange) → s.is_done ≡ false → EndsLast (next_batch from_hex random s)
  unfolding next_batch send
  next_batch-EndsLast random s n =
      if_cases EndsLast (leb (length s.batches) (next_index s.batch))
        (λ l. finish-EndsLast (record s { batch = some (next_index s.batch) }) (ground arith))
        (λ _. inl n)

  on_connect_reply-EndsLast :
      (o : Option ℕ) (random : ℕ) (s : Exchange)
      → s.is_done ≡ false
      → EndsLast (on_connect_reply from_hex o random s)
  unfolding on_connect_reply
  on_connect_reply-EndsLast none random s n = inl n
  on_connect_reply-EndsLast (some c) random s n =
      next_batch-EndsLast random (record s { cid = c }) n

  on_counts-EndsLast :
      (ks : List Text) (got : List Counts) (random : ℕ) (s : Exchange)
      → s.is_done ≡ false
      → EndsLast (on_counts from_hex ks got random s)
  unfolding on_counts
  on_counts-EndsLast ks [] random s n = inl n
  on_counts-EndsLast ks (c ∷ cs) random s n =
      next_batch-EndsLast random (puts (counted (pairs ks (c ∷ cs))) s) n

  on_reply-EndsLast :
      (o : Option ℕ) (reply : List ℕ) (random : ℕ) (s : Exchange)
      → s.is_done ≡ false
      → EndsLast (on_reply from_hex o reply random s)
  unfolding on_reply
  on_reply-EndsLast none reply random s n =
      on_connect_reply-EndsLast (parse_connect reply s.tx) random s n
  on_reply-EndsLast (some b) reply random s n =
      let ks = get_or s.batches b [] in
      on_counts-EndsLast ks (parse_scrape reply s.tx (length ks)) random s n

  handle-EndsLast :
      (e : Event) (s : Exchange) → is_quiet e ≡ true → EndsLast s → EndsLast (handle from_hex e s)
  unfolding handle on_host_found on_datagram send
  handle-EndsLast (looked_up true true random) s q i =
      if_cases EndsLast s.is_done (λ _. i) (λ n. inl n)
  handle-EndsLast (looked_up true false random) s q i = cc
  handle-EndsLast (looked_up false is_bound random) s q i = cc
  handle-EndsLast (datagram reply random) s q i =
      if_cases EndsLast s.is_done (λ _. i) (λ n. on_reply-EndsLast s.batch reply random s n)
  handle-EndsLast timeout s q i = cc

  handle_all-EndsLast :
      (es : List Event) (s : Exchange)
      → all_quiet es ≡ true
      → EndsLast s
      → EndsLast (handle_all from_hex es s)
  unfolding handle_all
  handle_all-EndsLast [] s q i = i
  handle_all-EndsLast (e ∷ es) s q i =
      handle_all-EndsLast es (handle from_hex e s) (&&-right (is_quiet e) (all_quiet es) q)
        (handle-EndsLast e s (&&-left (is_quiet e) (all_quiet es) q) i)

  -- An exchange that is over, with neither a failed lookup nor the end of its time, has counted every
  -- hash that the tracker was asked for, in their order and each once, whatever else arrived.
  pub quiet_end-All :
      (hs : List Text) (es : List Event)
      → all_quiet es ≡ true
      → (handle_all from_hex es (ask_tracker hs)).is_done ≡ true
      → counted_keys (handle_all from_hex es (ask_tracker hs)).outputs ≡ hs
  unfolding ask_tracker
  quiet_end-All hs es q d =
      let s = handle_all from_hex es (ask_tracker hs) in
      elim (handle_all-EndsLast es (ask_tracker hs) q (inl refl)) [
        | inl n ↦ let both = sym d ∙ n in cc
        | inr l ↦
            sym (append-nil (counted_keys s.outputs))
            ∙ ap (λ w. counted_keys s.outputs ++ w) (sym (flat-drop (taken s.batch) s.batches l))
            ∙ counted-InOrder from_hex hs es
      ]
