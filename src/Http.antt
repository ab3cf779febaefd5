-- ===== src/Http.antt =====
-- The text side of the HTTP server: src/onion/http.c, src/onion/request.c and src/onion/parser.c.
mod Tests
pub mod Search
pub mod Token
pub mod Buffer
pub mod Allocator
pub mod Line
pub mod Request
pub mod CString
pub mod Headers
pub mod Body
pub mod Machine
pub mod Connection
