-- ===== src/Api.antt =====
-- internal/api: what the handlers do before they reach the repository. Queries for http_helpers.go,
-- Settings and Posting for settings_handlers.go, Rules for notification_handlers.go.
pub mod Queries
pub mod Settings
pub mod Rules
pub mod Posting
