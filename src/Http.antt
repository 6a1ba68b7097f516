-- ===== src/Http.antt =====
-- ownCloudSDK/HTTP: status codes, requests with their header fields, parameters and policies, and responses.
pub mod Names
pub mod Status
pub mod Response
pub mod Request
pub mod Pipeline
