-- ===== src/Http.antt =====
-- internal/httpapi/server.go and internal/middleware/http.go: the routes of the server over the use
-- cases of Service, and what their answers are.
pub mod Replies
pub mod Server
pub mod Refinement
pub mod Safety
mod Examples
