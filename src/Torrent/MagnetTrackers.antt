-- ===== src/Torrent/MagnetTrackers.antt =====
-- src/torrent/magnettrackers.h: the open trackers that a magnet gets, and how
-- src/torrent/sessionmanager_alerts.cpp takes them back from a private torrent. A tracker of the session
-- is its URL, the rest of libtorrent's entry goes with it.
pub mod Own
use batorrent.Base.{
  Bool, List, Text, [], codes, false, if◌then◌else◌, length, not, pos, suc, text_eq, zero, ℕ, ℤ,
  ◌++◌, ◌+ℤ◌, ◌==◌, ◌||◌, ◌∷◌,
}

unfoldable pub public_trackers : List Text
public_trackers =
    codes "udp://tracker.opentrackr.org:1337/announce"
    ∷ codes "udp://open.demonii.com:1337/announce"
    ∷ codes "udp://open.stealth.si:80/announce"
    ∷ codes "udp://tracker.torrent.eu.org:451/announce"
    ∷ codes "udp://exodus.desync.com:6969/announce"
    ∷ []

-- std::find.
abbrev pub is_among : Text → List Text → Bool
is_among t [] = false
is_among t (u ∷ us) = text_eq u t || is_among t us

-- The trackers of a magnet with their tiers.
pub record Trackers : Type 0 where
  pub urls : List Text
  pub tiers : List ℤ

-- One round of the loop, with the next tier.
abbrev pub add_tracker : Text → Trackers × ℤ → Trackers × ℤ
add_tracker t (m, tier) =
    if is_among t m.urls
    then (m, tier)
    else (record { urls = m.urls ++ t ∷ []; tiers = m.tiers ++ tier ∷ [] }, tier +ℤ pos 1)

abbrev pub add_trackers : List Text → Trackers × ℤ → Trackers × ℤ
add_trackers [] m = m
add_trackers (t ∷ ts) m = add_trackers ts (add_tracker t m)

-- std::vector::resize with 0.
abbrev pub resize_tiers : ℕ → List ℤ → List ℤ
resize_tiers zero ts = []
resize_tiers (suc n) [] = pos 0 ∷ resize_tiers n []
resize_tiers (suc n) (t ∷ ts) = t ∷ resize_tiers n ts

unfoldable pub append_public_trackers : Trackers → Trackers
unfolding public_trackers text_eq ◌+ℤ◌
append_public_trackers m =
    let n = length m.urls in
    let tiers = if not (length m.tiers == n) then resize_tiers n m.tiers else m.tiers in
    (add_trackers public_trackers (record m { tiers = tiers }, pos n)).0

-- std::remove_if with erase.
unfoldable pub strip_public_trackers : List Text → List Text
unfolding public_trackers text_eq
strip_public_trackers [] = []
strip_public_trackers (u ∷ us) =
    let rest = strip_public_trackers us in if is_among u public_trackers then rest else u ∷ rest
