-- ===== src/Pagination.antt =====
-- internal/core/pagination: opaque page tokens over a sorted collection.
pub mod Keys
pub mod Search
pub mod Token
pub mod Page
pub mod Parse
pub mod Slice
pub mod Walk
pub mod Link
mod Tests
