-- ===== src/Chat/Wire.antt =====
-- Messages on a stream socket: 局域网聊天/protocol.h, and send_message, recv_full and recv_message of
-- server_tool.c and client_tool.c, which are the same in both but for what `send_message` returns.
-- A multi-byte field is little-endian, as on the machines that the binaries are for. A socket is the
-- list of what the next calls of `read` could return at most; past its end `read` returns 0 or fails.
pub mod Reading
pub mod RoundTrip
use learningproject.Common.{
  ℕ, ◌+◌, ◌-◌, ◌*◌, ◌/◌, ◌%◌, ◌^◌, Bool, true, false, ◌||◌, List, [], ◌∷◌, ◌++◌, Option, none, some,
  ◌>>=◌, if◌then◌else◌, ◌==◌, not, ltb, leb, length, take, drop,
}

abbrev pub chat_magic : ℕ
chat_magic = 0xCAFE

abbrev pub chat_version : ℕ
chat_version = 1

-- RECV_BUF_SIZE of server_tool.h and client_tool.h
abbrev pub recv_buf_size : ℕ
recv_buf_size = 4096

-- sizeof(struct chat_header)
abbrev pub header_size : ℕ
header_size = 6

pub record Header : Type 0 where
  pub magic : ℕ
  pub version : ℕ
  pub kind : ℕ  -- `type`
  pub len : ℕ  -- `length`

-- a message that was received, with the bytes of its body
pub record Message : Type 0 where
  pub header : Header
  pub body : List ℕ

abbrev pub u16_bytes : ℕ → List ℕ
u16_bytes n = (n % 256) ∷ (n / 256 % 256) ∷ []

abbrev pub header_bytes : Header → List ℕ
header_bytes h =
    (h.magic % 256) ∷ (h.magic / 256 % 256) ∷ (h.version % 256) ∷ (h.kind % 256) ∷ u16_bytes h.len

-- the six bytes that were copied into a `struct chat_header`
unfoldable pub read_header : List ℕ → Option Header
read_header (a ∷ b ∷ v ∷ k ∷ c ∷ d ∷ []) =
    some (record { magic = a + 256 * b; version = v; kind = k; len = c + 256 * d })
read_header other = none

-- The bytes that `send_message` hands to `write`. The body's length is passed as a `uint16_t`, and the
-- total length is one; where that wraps, the copy leaves the buffer (`none`).
pub frame : ℕ → List ℕ → Option (List ℕ)
frame kind body =
    let body_len = length body % 2 ^ 16 in
    let total_len = (header_size + body_len) % 2 ^ 16 in
    if ltb total_len (header_size + body_len)
    then none
    else some (
        header_bytes
          (record { magic = chat_magic; version = chat_version; kind = kind; len = total_len })
        ++ take body_len body)

-- `recv_full`: reads on until `n` bytes are there; `none` is -1. The rounds recur on the chunks.
unfoldable pub recv_full : ℕ → List (List ℕ) → Option (List ℕ × List (List ℕ))
recv_full n [] = if n == 0 then some ([], []) else none
recv_full n (c ∷ cs) =
    let more = recv_full (n - length c) cs in
    if n == 0
    then some ([], c ∷ cs)
    else if length c == 0
    then none
    else if ltb n (length c)
    then some (take n c, drop n c ∷ cs)
    else (do (rest, left) ← more; some (c ++ rest, left))

-- the checks of `recv_message` on a header
unfoldable pub accepts : Header → Bool
accepts h = not (
    not (h.magic == chat_magic)
    || (not (h.version == chat_version) || (ltb h.len header_size || ltb recv_buf_size h.len)))

-- `recv_message`; `none` is NULL. Memory for the message is taken to be there.
unfoldable pub recv_message : List (List ℕ) → Option (Message × List (List ℕ))
recv_message socket = do
  (bytes, left) ← recv_full header_size socket
  h ← read_header bytes
  (if accepts h
      then (do
        (body, left') ← recv_full (h.len - header_size) left
        some (record { header = h; body = body }, left'))
      else none)
