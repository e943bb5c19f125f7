-- ===== src/Car/Frame.antt =====
-- Packets on the serial line: SerialWorker::parseBuffer and calculateChecksum of
-- MyCarUI/SerialWorker.cpp. A packet is HEAD1 HEAD2 TYPE LEN DATA CHECK TAIL.
pub mod Reference
pub mod Rounds
pub mod Stream
pub mod Sending
use Prim.Native.Nat.{bit_xor}
use learningproject.Common.{
  ℕ, zero, suc, ◌+◌, ◌-◌, Bool, true, false, ◌&&◌, not, List, [], ◌∷◌, ◌++◌, Option, none, some,
  if◌then◌else◌, ◌==◌, ltb, length, take, drop,
}

abbrev pub packet_head1 : ℕ
packet_head1 = 0xAA

abbrev pub packet_head2 : ℕ
packet_head2 = 0x55

abbrev pub packet_tail : ℕ
packet_tail = 0xEE

-- `at(i)` of a QByteArray, within its size
unfoldable pub byte_at : ℕ → List ℕ → ℕ
byte_at i [] = 0
byte_at zero (b ∷ bs) = b
byte_at (suc i) (b ∷ bs) = byte_at i bs

-- the loop of calculateChecksum
unfoldable pub checksum_from : ℕ → List ℕ → ℕ
checksum_from check [] = check
checksum_from check (b ∷ bs) = checksum_from (bit_xor check b) bs

unfoldable pub calculate_checksum : ℕ → ℕ → List ℕ → ℕ
calculate_checksum kind len content = checksum_from (bit_xor kind len) content

abbrev pub is_head : ℕ → ℕ → Bool
is_head a b = a == packet_head1 && b == packet_head2

-- The search for a head in a buffer that starts with `a`: its index.
unfoldable pub find_after : ℕ → List ℕ → Option ℕ
find_after a [] = none
find_after a (b ∷ bs) =
    let rest = find_after b bs in
    if is_head a b then some 0 else elim rest [ none ↦ none | some i ↦ some (suc i) ]

unfoldable pub find_head : List ℕ → Option ℕ
find_head [] = none
find_head (b ∷ bs) = find_after b bs

-- How a round of the loop ends: by leaving the function, with this buffer; by going on with one; or by
-- handing a packet to parsePacket before that.
pub data Round : Type 0 where
  stop again : List ℕ → Round
  found : (packet left : List ℕ) → Round

-- the round from the test of the size on, with a head at the start of the buffer
unfoldable pub at_head : List ℕ → Round
at_head buffer =
    let len = byte_at 3 buffer in
    let packet_len = 4 + len + 2 in
    if ltb (length buffer) 4
    then stop buffer
    else if ltb (length buffer) packet_len
    then stop buffer
    else if not (byte_at (packet_len - 1) buffer == packet_tail)
    then again (drop 2 buffer)
    else if byte_at (4 + len) buffer
        == calculate_checksum (byte_at 2 buffer) len (take len (drop 4 buffer))
    then found (take packet_len buffer) (drop packet_len buffer)
    else again (drop packet_len buffer)

unfoldable pub round : List ℕ → Round
round buffer = if ltb (length buffer) 6 then stop buffer else elim (find_head buffer) [
  | none ↦ stop (drop (length buffer - 1) buffer)
  | some i ↦ at_head (drop i buffer)
]
