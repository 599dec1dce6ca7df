-- ===== src/Files.antt =====
-- apps/api/src/files: the sessions of uploads in parts, and the file operations with their
-- permissions.
mod Examples
pub mod Model
pub mod Rows
pub mod Dedup
pub mod Entered
pub mod Create
pub mod Uploads
pub mod Public
pub mod Steps
