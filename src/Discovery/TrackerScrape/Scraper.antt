-- ===== src/Discovery/TrackerScrape/Scraper.antt =====
-- The scraper of src/services/discovery/trackerscrape.cpp: its trackers, each with an exchange.
use batorrent.Base.{
  Bool, List, Text, [], assign, eq_ℤ, false, find, if◌then◌else◌, length, ltb, map, none, not, pos,
  some, suc, take, text_eq, true, zero, ℕ, ℤ, ◌&&◌, ◌++◌, ◌-ℤ◌, ◌==◌, ◌||◌, ◌∷◌,
}
use batorrent.Discovery.TrackerScrape.{
  Exchange, ask_tracker, max_trackers, on_datagram, on_host_found, finish,
}

abbrev pub HashesByTracker : Type 0
HashesByTracker = List (Text × List Text)

abbrev pub hashes_of : Text → HashesByTracker → List Text
hashes_of t m = elim (find text_eq t m) [ none ↦ [] | some hs ↦ hs ]

-- The two loops over the trackers of each hash.
abbrev for_trackers : Text → List Text → HashesByTracker → HashesByTracker
for_trackers hash [] m = m
for_trackers hash (t ∷ ts) m =
    for_trackers hash ts (assign text_eq t (hashes_of t m ++ hash ∷ []) m)

abbrev pub for_hashes : List (Text × List Text) → HashesByTracker → HashesByTracker
for_hashes [] m = m
for_hashes ((hash, ts) ∷ hs) m = for_hashes hs (for_trackers hash ts m)

-- Two QStrings compared by their code units.
abbrev text_lt : Text → Text → Bool
text_lt a [] = false
text_lt [] (d ∷ b) = true
text_lt (c ∷ a) (d ∷ b) = ltb c d || (c == d) && text_lt a b

abbrev goes_first : HashesByTracker → Text → Text → Bool
goes_first m a b =
    let na = length (hashes_of a m) in
    let nb = length (hashes_of b m) in if not (na == nb) then ltb nb na else text_lt a b

-- std::sort.
abbrev insert_tracker : HashesByTracker → Text → List Text → List Text
insert_tracker m t [] = t ∷ []
insert_tracker m t (u ∷ us) = elim (goes_first m u t) [
  | true ↦ u ∷ insert_tracker m t us
  | false ↦ t ∷ u ∷ us
]

abbrev sort_trackers : HashesByTracker → List Text → List Text
sort_trackers m [] = []
sort_trackers m (t ∷ ts) = insert_tracker m t (sort_trackers m ts)

unfoldable pub chosen_trackers : HashesByTracker → List Text
unfolding find text_eq
chosen_trackers m = take max_trackers (sort_trackers m (map (λ e. e.0) m))

-- `finishes` counts the emits of finished(); `is_deferred` is the timer of 0 ms that will emit it.
pub record Scraper : Type 0 where
  pub pending : ℤ
  pub exchanges : List (Text × Exchange)
  pub is_deferred : Bool
  pub finishes : ℕ

abbrev pub ask_all : HashesByTracker → List Text → List (Text × Exchange)
ask_all m [] = []
ask_all m (t ∷ ts) = (t, ask_tracker (hashes_of t m)) ∷ ask_all m ts

-- A scraper is used for one call.
unfoldable pub scrape : List (Text × List Text) → Scraper
unfolding find assign text_eq ask_tracker chosen_trackers
scrape trackers_by_hash =
    let m = for_hashes trackers_by_hash [] in
    let trackers = chosen_trackers m in
    let n = length trackers in
    record { pending = pos n; exchanges = ask_all m trackers; is_deferred = n == 0; finishes = 0 }

unfoldable pub done_one : Scraper → Scraper
unfolding ◌-ℤ◌
done_one s =
    let left = s.pending -ℤ pos 1 in
    record s { pending = left; finishes = if eq_ℤ left (pos 0) then suc s.finishes else s.finishes }

-- What happens to the exchange with one tracker.
pub data Event : Type 0 where
  looked_up : Bool → Bool → ℕ → Event
  datagram : List ℕ → ℕ → Event
  timeout : Event

module _ (from_hex : Text → List ℕ) where
  unfoldable pub handle : Event → Exchange → Exchange
  unfolding on_host_found on_datagram finish
  handle (looked_up has_address is_bound random) s =
      on_host_found from_hex has_address is_bound random s
  handle (datagram reply random) s = on_datagram from_hex reply random s
  handle timeout s = finish s

  abbrev pub at_tracker : ℕ → Event → List (Text × Exchange) → List (Text × Exchange)
  at_tracker i e [] = []
  at_tracker zero e ((t, x) ∷ xs) = (t, handle e x) ∷ xs
  at_tracker (suc i) e (x ∷ xs) = x ∷ at_tracker i e xs

  -- Whether the event ends the `i`-th exchange, which calls doneOne().
  abbrev pub ends_at : ℕ → Event → List (Text × Exchange) → Bool
  ends_at i e [] = false
  ends_at zero e ((t, x) ∷ xs) = not x.is_done && (handle e x).is_done
  ends_at (suc i) e (x ∷ xs) = ends_at i e xs

  unfoldable pub scraper_step : ℕ → Event → Scraper → Scraper
  unfolding handle done_one
  scraper_step i e s =
      let t = record s { exchanges = at_tracker i e s.exchanges } in
      if ends_at i e s.exchanges then done_one t else t

unfoldable pub on_deferred_finish : Scraper → Scraper
on_deferred_finish s =
    if s.is_deferred then record s { is_deferred = false; finishes = suc s.finishes } else s
