-- ===== src/Tests/Discovery.antt =====
-- Runs of src/services/discovery/trackerscrape.cpp at fixed inputs.
use batorrent.Base.{
  List, Option, Text, [], codes, map, pos, refl, some, true, ℕ, ◌+◌, ◌==◌, ◌∷◌, ◌≡◌,
}
use batorrent.Discovery.TrackerScrape.{Url, udp_trackers, connect_request, ask_tracker}
use batorrent.Discovery.TrackerScrape.Scraper.{Event, looked_up, datagram, timeout, scrape}
use batorrent.Discovery.TrackerScrape.Batches.{counted_keys}
use batorrent.Discovery.TrackerScrape.Order.{handle_all}
use batorrent.Discovery.TrackerScrape.Quiet.{quiet_end-All}
use batorrent.Discovery.TrackerScrape.Finish.{undone, one_if, run, finished-Once}
use batorrent.Discovery.TrackerScrape.Wire.{Swarm, scrape_reply, connect_reply}

-- Each hash stands for its own bytes.
abbrev from_hex : Text → List ℕ
from_hex t = t

abbrev hashes : List Text
hashes = codes "aa" ∷ codes "bb" ∷ []

abbrev swarms : List Swarm
swarms =
    record { seeders = 10; completed = 300; leechers = 2 }
    ∷ record { seeders = 0; completed = 0; leechers = 70000 }
    ∷ []

abbrev events : List Event
events =
    looked_up true true 77
    ∷ datagram (connect_reply 78 5) 0
    ∷ datagram (connect_reply 77 5) 99
    ∷ datagram (scrape_reply 99 swarms) 0
    ∷ []

quiet_end-All_example :
    counted_keys (handle_all from_hex events (ask_tracker hashes)).outputs ≡ hashes
unfolding handle_all ask_tracker
quiet_end-All_example = quiet_end-All from_hex hashes events refl refl

abbrev asked : List (Text × List Text)
asked = (codes "aa", codes "t:1" ∷ codes "u:2" ∷ []) ∷ (codes "bb", codes "u:2" ∷ []) ∷ []

abbrev times : List (Option (ℕ × Event))
times = some (0, timeout) ∷ some (0, timeout) ∷ some (1, timeout) ∷ []

finished-Once_example :
    let s = run from_hex times (scrape asked) in
    s.finishes + one_if s.is_deferred ≡ one_if (undone s.exchanges == 0)
finished-Once_example = finished-Once from_hex asked times

finishes : (run from_hex times (scrape asked)).finishes ≡ 1
unfolding run scrape
finishes = refl

-- The tracker of more hashes is asked first.
first_tracker : map (λ e. e.0) (scrape asked).exchanges ≡ codes "u:2" ∷ codes "t:1" ∷ []
unfolding scrape
first_tracker = refl

connect_bytes :
    connect_request 7 ≡ 0 ∷ 0 ∷ 4 ∷ 23 ∷ 39 ∷ 16 ∷ 25 ∷ 128 ∷ 0 ∷ 0 ∷ 0 ∷ 0 ∷ 0 ∷ 0 ∷ 0 ∷ 7 ∷ []
unfolding connect_request
connect_bytes = refl

abbrev url_of : Text → Url
url_of t = record { scheme = codes "UDP"; host = t; port = pos 80 }

trackers :
    udp_trackers url_of (λ n. codes "80") [] (codes "A.org" ∷ codes "a.org" ∷ [])
    ≡ codes "a.org:80" ∷ []
unfolding udp_trackers
trackers = refl

abbrev truth : Text → Swarm
truth h = record { seeders = 10; completed = 300; leechers = 2 }

abbrev random : ℕ → ℕ
random k = 5
