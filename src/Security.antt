-- ===== src/Security.antt =====
-- src/services/security: what is done about files that are not what they seem.
pub mod MediaSniff
use batorrent.Base.{}
