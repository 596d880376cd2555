-- ===== src/Item.antt =====
-- internal/item: the business model and the application service.
pub mod Errors
pub mod Context
pub mod Model
pub mod Cursor
pub mod Idempotency
pub mod Ports
pub mod Service
pub mod CursorList
pub mod IdempotentCreate
pub mod HttpApi
