-- ===== src/Chat/Wire/RoundTrip.antt =====
-- What send_message writes, recv_message reads back (局域网聊天/server_tool.c, client_tool.c).
use learningproject.Common.{
  ℕ, ◌+◌, ◌-◌, ◌%◌, ◌^◌, ◌≤◌, ◌<◌, ◌≡◌, refl, ap, ◌∙◌, true, false, List, ◌++◌, none, some, arith,
  inl, inr, Bool-cases, >>=-eq-some, length, length-append, take_of_le, take-append, drop-append,
}
use learningproject.Chat.Wire.{
  Header, Message, header_bytes, header_size, recv_buf_size, chat_magic, chat_version, frame,
  read_header, accepts, recv_full, recv_message,
}
use learningproject.Chat.Wire.Reading.{
  stream-recv_full, stream, IsLive, recv_full_lem, length-recv_full,
}

-- the header that `send_message` writes
abbrev pub sent_header : ℕ → ℕ → Header
sent_header kind n = record {
  magic = chat_magic;
  version = chat_version;
  kind = kind;
  len = header_size + n;
}

-- A message whose length fits into the header is written whole.
pub frame_lem :
    (kind : ℕ) (body : List ℕ)
    → header_size + length body < 2 ^ 16
    → frame kind body ≡ some (header_bytes (sent_header kind (length body)) ++ body)
unfolding frame
frame_lem kind body h = ground (arith, take_of_le (length body % 2 ^ 16) body)

read_header-bytes :
    (h : Header)
    → h.magic < 2 ^ 16
    → h.version < 256
    → h.kind < 256
    → h.len < 2 ^ 16
    → read_header (header_bytes h) ≡ some h
unfolding read_header
read_header-bytes h m v k l = ground arith

recv_header :
    (h : Header) (body rest : List ℕ) (socket : List (List ℕ))
    → IsLive socket
    → stream socket ≡ header_bytes h ++ (body ++ rest)
    → (left : List (List ℕ)) × (recv_full header_size socket ≡ some (header_bytes h, left))
      × IsLive left
      × (stream left ≡ body ++ rest)
recv_header h body rest socket live e =
    let (left, got) = recv_full_lem header_size socket live (omega (arith, ap length e)) in
    (left, got.got ∙ rw e refl, got.live, got.rest ∙ rw e refl)

sent_stream :
    (kind : ℕ) (body rest bytes : List ℕ) (socket : List (List ℕ))
    → header_size + length body < 2 ^ 16
    → frame kind body ≡ some bytes
    → stream socket ≡ bytes ++ rest
    → stream socket ≡ header_bytes (sent_header kind (length body)) ++ (body ++ rest)
sent_stream kind body rest bytes socket h hf e =
    let same : bytes ≡ header_bytes (sent_header kind (length body)) ++ body =
      ground (arith, frame_lem kind body h) in
    rw same at e

accepts-sent : (kind n : ℕ) → header_size + n ≤ recv_buf_size → accepts (sent_header kind n) ≡ true
unfolding accepts
accepts-sent kind n h = ground arith

accepts-long : (kind n : ℕ) → recv_buf_size < header_size + n → accepts (sent_header kind n) ≡ false
unfolding accepts
accepts-long kind n h = ground arith

-- A message of a type below 256 and a body of at most 4090 bytes, sent and received through a socket that
-- cuts the bytes anywhere but returns no empty piece before the end, arrives with its type and its body, and the bytes behind it stay in the socket.
pub recv-frame :
    (kind : ℕ) (body rest bytes : List ℕ) (socket : List (List ℕ))
    → kind < 256
    → header_size + length body ≤ recv_buf_size
    → frame kind body ≡ some bytes
    → IsLive socket
    → stream socket ≡ bytes ++ rest
    → (left : List (List ℕ)) × (recv_message socket
        ≡ some (record { header = sent_header kind (length body); body = body }, left))
      × IsLive left
      × (stream left ≡ rest)
unfolding recv_message
recv-frame kind body rest bytes socket hk hl hf live e =
    let (left, got, live', rest') =
      recv_header (sent_header kind (length body)) body rest socket live
        (sent_stream kind body rest bytes socket (omega arith) hf e) in
    let (left', body') =
      recv_full_lem (length body) left live'
        (omega (arith, ap length rest', length-append body rest)) in
    (
      left',
      ground (
        arith,
        got,
        read_header-bytes (sent_header kind (length body)),
        accepts-sent kind (length body) hl,
        body'.got,
        rest',
        take-append body rest,
      ),
      body'.live,
      body'.rest ∙ rw rest' (drop-append body rest),
    )

-- A longer body, that `send_message` still sends, is refused by `recv_message`.
pub recv-frame_long :
    (kind : ℕ) (body rest bytes : List ℕ) (socket : List (List ℕ))
    → kind < 256
    → recv_buf_size < header_size + length body
    → header_size + length body < 2 ^ 16
    → frame kind body ≡ some bytes
    → IsLive socket
    → stream socket ≡ bytes ++ rest
    → recv_message socket ≡ none
unfolding recv_message
recv-frame_long kind body rest bytes socket hk hl hm hf live e =
    let (left, got, live', rest') =
      recv_header (sent_header kind (length body)) body rest socket live
        (sent_stream kind body rest bytes socket hm hf e) in
    ground (
      arith,
      got,
      read_header-bytes (sent_header kind (length body)),
      accepts-long kind (length body) hl,
    )

accepts-checks :
    (h : Header)
    → accepts h ≡ true
    → (h.magic ≡ chat_magic)
      × (h.version ≡ chat_version)
      × (header_size ≤ h.len)
      × (h.len ≤ recv_buf_size)
unfolding accepts
accepts-checks h e = ground arith

-- Whatever comes in, a message that `recv_message` accepts has the program's magic number and version,
-- and a body of the length that its header states, which is at most 4090 bytes.
recv_message_sound :
    (socket left : List (List ℕ)) (m : Message)
    → recv_message socket ≡ some (m, left)
    → (m.header.magic ≡ chat_magic)
      × (m.header.version ≡ chat_version)
      × (header_size + length m.body ≡ m.header.len)
      × (m.header.len ≤ recv_buf_size)
unfolding recv_message
recv_message_sound socket left m e =
    let ((bytes, rest), one, e₁) = >>=-eq-some (recv_full header_size socket) _ e in
    let (h, two, e₂) = >>=-eq-some (read_header bytes) _ e₁ in
    elim (Bool-cases (accepts h)) [
      | inr refused ↦ ground (arith, e₂, refused)
      | inl fine ↦
          let ((body, rest'), three, e₃) =
            >>=-eq-some (recv_full (h.len - header_size) rest) _ (rw fine at e₂) in
          ground (
            arith,
            e₃,
            accepts-checks h fine,
            length-recv_full (h.len - header_size) rest rest' body three,
          )
    ]

-- A message takes at least the six bytes of its header from the stream.
pub recv_message-shortens :
    (socket left : List (List ℕ)) (m : Message)
    → recv_message socket ≡ some (m, left)
    → length (stream left) + header_size ≤ length (stream socket)
unfolding recv_message
recv_message-shortens socket left m e =
    let ((bytes, rest), one, e₁) = >>=-eq-some (recv_full header_size socket) _ e in
    let (h, two, e₂) = >>=-eq-some (read_header bytes) _ e₁ in
    elim (Bool-cases (accepts h)) [
      | inr refused ↦ ground (arith, e₂, refused)
      | inl fine ↦
          let ((body, rest'), three, e₃) =
            >>=-eq-some (recv_full (h.len - header_size) rest) _ (rw fine at e₂) in
          ground (
            arith,
            e₃,
            length-recv_full header_size socket rest bytes one,
            stream-recv_full header_size socket rest bytes one,
            stream-recv_full (h.len - header_size) rest rest' body three,
          )
    ]
