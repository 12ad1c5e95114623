-- ===== src/App.antt =====
-- ipmi_internal_app.go: the application commands that do something, each a handler on the parsed
-- message and the server. Every other command of the file has an empty body, or only prints: it
-- stands in the table of Server.
pub mod Guards
pub mod Challenge
pub mod Activate
pub mod Control
pub mod Invariant
pub mod Step
pub mod Authorized
pub mod Untouched
pub mod Faults
