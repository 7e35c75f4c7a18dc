-- ===== src/Discovery.antt =====
-- Where torrents are found: src/services/discovery.
pub mod TrackerScrape
