-- ===== src/Chat/Tests.antt =====
-- Runs of the model of the chat server (局域网聊天), and its theorems at concrete states.
mod Stream
mod Files
mod Requests
mod Client
mod Menu
