-- ===== src/Discovery/TrackerScrape.antt =====
-- src/services/discovery/trackerscrape.h and .cpp: seeders and leechers from UDP trackers. A byte is a
-- number below 256. What Qt's QUrl finds in a tracker, QString::number and QByteArray::fromHex are
-- parameters, random numbers and datagrams are arguments. What a socket or the scraper does is listed,
-- oldest first. The order of a QHash is that of its insertions.

pub mod Scraper
pub mod Batches
pub mod Order
pub mod Quiet
pub mod Wire
pub mod Finish
pub mod Answered
use batorrent.Base.{
  Bool, List, Option, Text, [], codes, drop, false, get_or, if◌then◌else◌, is_empty, leb, leb_ℤ,
  length, ltb, map, negsuc, none, not, pos, some, suc, take, text_eq, to_lower, true, zero, ℕ, ℤ,
  ◌%◌, ◌*◌, ◌++◌, ◌+◌, ◌-◌, ◌/◌, ◌==◌, ◌||◌, ◌∷◌,
}

abbrev pub protocol_id : ℕ
protocol_id = 4497486125440

abbrev pub action_connect : ℕ
action_connect = 0

abbrev pub action_scrape : ℕ
action_scrape = 2

abbrev pub max_per_scrape : ℕ
max_per_scrape = 70

abbrev pub max_trackers : ℕ
max_trackers = 6

abbrev pub byte_of : ℕ → ℕ → ℕ
byte_of v unit = v / unit % 256

-- The highest byte first.
abbrev pub put32 : List ℕ → ℕ → List ℕ
put32 b v = b ++ byte_of v 16777216 ∷ byte_of v 65536 ∷ byte_of v 256 ∷ v % 256 ∷ []

abbrev pub put64 : List ℕ → ℕ → List ℕ
put64 b v = put32 (put32 b (v / 4294967296)) (v % 4294967296)

abbrev pub get32 : List ℕ → ℕ → ℕ
get32 b at =
    get_or b at 0 * 16777216
    + get_or b (at + 1) 0 * 65536
    + get_or b (at + 2) 0 * 256
    + get_or b (at + 3) 0

abbrev pub get64 : List ℕ → ℕ → ℕ
get64 b at = get32 b at * 4294967296 + get32 b (at + 4)

-- A quint32 as an int.
abbrev pub to_int : ℕ → ℤ
to_int v = if ltb v 2147483648 then pos v else negsuc (4294967295 - v)

pub record Counts : Type 0 where
  pub seeders : ℤ
  pub leechers : ℤ

-- scheme(), host() and port() of a QUrl.
pub record Url : Type 0 where
  pub scheme : Text
  pub host : Text
  pub port : ℤ

abbrev pub has_text : Text → List Text → Bool
has_text t [] = false
has_text t (u ∷ us) = text_eq t u || has_text t us

module _ (url_of : Text → Url) (number : ℤ → Text) where
  -- Of the values of `tr` in the query of a magnet, with what was found before.
  unfoldable pub udp_trackers : List Text → List Text → List Text
  unfolding text_eq to_lower
  udp_trackers out [] = out
  udp_trackers out (tr ∷ trs) =
      let u = url_of tr in
      let key = to_lower u.host ++ codes ":" ++ number u.port in
      if not (text_eq (to_lower u.scheme) (codes "udp")) || is_empty u.host || leb_ℤ u.port (pos 0)
      then udp_trackers out trs
      else udp_trackers (if has_text key out then out else out ++ key ∷ []) trs

unfoldable pub connect_request : ℕ → List ℕ
connect_request transaction = put32 (put32 (put64 [] protocol_id) action_connect) transaction

unfoldable pub parse_connect : List ℕ → ℕ → Option ℕ
parse_connect reply transaction =
    if ltb (length reply) 16
      || not (get32 reply 0 == action_connect)
      || not (get32 reply 4 == transaction)
    then none
    else some (get64 reply 8)

abbrev pub append_all : List ℕ → List (List ℕ) → List ℕ
append_all b [] = b
append_all b (h ∷ hs) = append_all (b ++ h) hs

unfoldable pub scrape_request : ℕ → ℕ → List (List ℕ) → List ℕ
scrape_request connection_id transaction hashes =
    append_all (put32 (put32 (put64 [] connection_id) action_scrape) transaction) hashes

-- The loop from the `i`-th hash on, for `n` of them.
abbrev pub counts_from : List ℕ → ℕ → ℕ → List Counts
counts_from reply i zero = []
counts_from reply i (suc n) =
    let at = 8 + 12 * i in
    record { seeders = to_int (get32 reply at); leechers = to_int (get32 reply (at + 8)) }
    ∷ counts_from reply (suc i) n

unfoldable pub parse_scrape : List ℕ → ℕ → ℕ → List Counts
parse_scrape reply transaction hash_count =
    if ltb (length reply) (8 + 12 * hash_count)
      || not (get32 reply 0 == action_scrape)
      || not (get32 reply 4 == transaction)
    then []
    else counts_from reply 0 hash_count

-- What an exchange with one tracker does. The pairs are what is put into the QHash, in that order.
pub data ExchangeOutput : Type 0 where
  sends : List ℕ → ExchangeOutput
  counted : List (Text × Counts) → ExchangeOutput
  ends_exchange : ExchangeOutput

-- `batch` is none for -1, while the connection is asked for.
pub record Exchange : Type 0 where
  pub batches : List (List Text)
  pub tx : ℕ
  pub cid : ℕ
  pub batch : Option ℕ
  pub is_done : Bool
  pub outputs : List ExchangeOutput

-- With a round for each hash at most.
abbrev pub batches_of : ℕ → List Text → List (List Text)
batches_of zero hs = []
batches_of (suc n) [] = []
batches_of (suc n) (h ∷ hs) =
    take max_per_scrape (h ∷ hs) ∷ batches_of n (drop max_per_scrape (h ∷ hs))

unfoldable pub ask_tracker : List Text → Exchange
ask_tracker hashes = record {
  batches = batches_of (length hashes) hashes;
  tx = 0;
  cid = 0;
  batch = none;
  is_done = false;
  outputs = [];
}

abbrev pub puts : ExchangeOutput → Exchange → Exchange
puts o s = record s { outputs = s.outputs ++ o ∷ [] }

-- Also the timer's slot. The socket is gone then, and with it the slots of what comes later.
unfoldable pub finish : Exchange → Exchange
finish s = if s.is_done then s else puts ends_exchange (record s { is_done = true })

abbrev pub next_index : Option ℕ → ℕ
next_index none = 0
next_index (some b) = suc b

abbrev pub pairs : List Text → List Counts → List (Text × Counts)
pairs (k ∷ ks) (c ∷ cs) = (k, c) ∷ pairs ks cs
pairs _ _ = []

module _ (from_hex : Text → List ℕ) where
  abbrev pub request_of : Exchange → List ℕ
  request_of s = elim s.batch [
    | none ↦ connect_request s.tx
    | some b ↦ scrape_request s.cid s.tx (map from_hex (get_or s.batches b []))
  ]

  unfoldable pub send : ℕ → Exchange → Exchange
  unfolding connect_request scrape_request
  send random s = let t = record s { tx = random } in puts (sends (request_of t)) t

  -- The address of the host, and whether the socket could be bound.
  unfoldable pub on_host_found : Bool → Bool → ℕ → Exchange → Exchange
  unfolding finish send
  on_host_found has_address is_bound random s =
      if s.is_done
      then s
      else if not has_address
      then finish s
      else if not is_bound
      then finish s
      else send random s

  unfoldable pub next_batch : ℕ → Exchange → Exchange
  unfolding finish send
  next_batch random s =
      let t = record s { batch = some (next_index s.batch) } in
      if leb (length s.batches) (next_index s.batch) then finish t else send random t

  -- With the connection id, if the reply holds one.
  unfoldable pub on_connect_reply : Option ℕ → ℕ → Exchange → Exchange
  unfolding next_batch
  on_connect_reply none random s = s
  on_connect_reply (some c) random s = next_batch random (record s { cid = c })

  -- With what a reply counts for the hashes.
  unfoldable pub on_counts : List Text → List Counts → ℕ → Exchange → Exchange
  unfolding next_batch
  on_counts keys [] random s = s
  on_counts keys (c ∷ cs) random s = next_batch random (puts (counted (pairs keys (c ∷ cs))) s)

  -- A reply to the request for the batch, or for a connection.
  unfoldable pub on_reply : Option ℕ → List ℕ → ℕ → Exchange → Exchange
  unfolding on_connect_reply on_counts parse_connect parse_scrape
  on_reply none reply random s = on_connect_reply (parse_connect reply s.tx) random s
  on_reply (some b) reply random s =
      let keys = get_or s.batches b [] in
      on_counts keys (parse_scrape reply s.tx (length keys)) random s

  -- One datagram of the loop.
  unfoldable pub on_datagram : List ℕ → ℕ → Exchange → Exchange
  unfolding on_reply
  on_datagram reply random s = if s.is_done then s else on_reply s.batch reply random s
