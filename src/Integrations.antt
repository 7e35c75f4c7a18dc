-- ===== src/Integrations.antt =====
-- src/services/integrations: the table of countries.
pub mod GeoIpDb
