-- ===== src/Chat.antt =====
-- The chat server and its client (局域网聊天).
pub mod Text
pub mod Wire
pub mod Disk
pub mod Accounts
pub mod Friends
pub mod Groups
pub mod Online
pub mod Kind
pub mod Resp
pub mod Server
pub mod Client
mod Fixture
mod Tests
