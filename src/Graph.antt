-- ===== src/Graph.antt =====
-- crates/onesync-graph: the adapter that speaks to Microsoft Graph.
pub mod Errors
pub mod Http
pub mod Urls
pub mod Upload
pub mod Throttle
pub mod IdToken
pub mod Download
