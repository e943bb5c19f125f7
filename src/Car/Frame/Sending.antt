-- ===== src/Car/Frame/Sending.antt =====
-- Packets as the car's controller sends them, and the reading of MyCarUI/SerialWorker.cpp.
use learningproject.Common.{
  drop_of_le, take_of_le, ℕ, suc, ◌+◌, ◌≡◌, ◌≢◌, refl, ap, ap₂, ◌∙◌, List, [], ◌∷◌, ◌++◌, length,
  arith, map, length-append, take-append,
}
use learningproject.Car.Frame.{packet_head1, packet_head2, packet_tail, byte_at, calculate_checksum}
use learningproject.Car.Frame.Rounds.{decode-packet}
use learningproject.Car.Frame.Reference.{skip, packet, starts, scan, decode}

-- a packet of this type with this content
abbrev pub frame : ℕ → List ℕ → List ℕ
frame kind content =
    packet_head1
    ∷ packet_head2
    ∷ kind
    ∷ length content
    ∷ (content ++ calculate_checksum kind (length content) content ∷ packet_tail ∷ [])

-- A packet that is sent, with what disturbs the line before it.
pub record Message : Type 0 where
  pub noise : List ℕ
  pub kind : ℕ
  pub content : List ℕ

-- no byte that could start a packet
abbrev pub IsQuiet : List ℕ → Type 0
IsQuiet [] = Unit
IsQuiet (b ∷ bs) = (b ≢ packet_head1) × IsQuiet bs

abbrev pub AllQuiet : List Message → Type 0
AllQuiet [] = Unit
AllQuiet (m ∷ ms) = IsQuiet m.noise × AllQuiet ms

abbrev pub frame_of : Message → List ℕ
frame_of m = frame m.kind m.content

unfoldable pub transmitted : List Message → List ℕ
transmitted [] = []
transmitted (m ∷ ms) = m.noise ++ (frame_of m ++ transmitted ms)

scan-noise : (b : ℕ) (s : List ℕ) → b ≢ packet_head1 → scan (b ∷ s) ≡ skip 1
unfolding scan starts
scan-noise b [] h = refl
scan-noise b (a ∷ s) h = ground arith

decode-noise : (noise s : List ℕ) → IsQuiet noise → decode 0 (noise ++ s) ≡ decode 0 s
unfolding decode
decode-noise [] s h = refl
decode-noise (b ∷ bs) s h = rw (scan-noise b (bs ++ s) h.0, decode) (decode-noise bs s h.1)

byte_at-length : (xs ys : List ℕ) (b : ℕ) → byte_at (length xs) (xs ++ b ∷ ys) ≡ b
unfolding byte_at
byte_at-length [] ys b = refl
byte_at-length (x ∷ xs) ys b = byte_at-length xs ys b

byte_at-length_next : (xs ys : List ℕ) (a b : ℕ) → byte_at (suc (length xs)) (xs ++ a ∷ b ∷ ys) ≡ b
unfolding byte_at
byte_at-length_next [] ys a b = refl
byte_at-length_next (x ∷ xs) ys a b = byte_at-length_next xs ys a b

scan-frame : (kind : ℕ) (content : List ℕ) → scan (frame kind content) ≡ packet (6 + length content)
unfolding scan starts byte_at
scan-frame kind content = ground (
  arith,
  length-append content (check ∷ packet_tail ∷ []),
  check_there,
  tail_there,
  take-append content (check ∷ packet_tail ∷ []),
)
  where
    check : ℕ
    check = calculate_checksum kind (length content) content

    check_there : byte_at (4 + length content) (frame kind content) ≡ check
    check_there =
        let index : 4 + length content ≡ suc (suc (suc (suc (length content)))) = omega arith in
        rw index (byte_at-length content (packet_tail ∷ []) check)

    tail_there : byte_at (5 + length content) (frame kind content) ≡ packet_tail
    tail_there =
        let index : 5 + length content ≡ suc (suc (suc (suc (suc (length content))))) =
          omega arith in
        rw index (byte_at-length_next content [] check packet_tail)

pub length-frame : (kind : ℕ) (content : List ℕ) → length (frame kind content) ≡ 6 + length content
length-frame kind content = omega (
  arith,
  length-append content (calculate_checksum kind (length content) content ∷ packet_tail ∷ []),
)

decode-frame :
    (kind : ℕ) (content rest : List ℕ)
    → decode 0 (frame kind content ++ rest) ≡ frame kind content ∷ decode 0 rest
decode-frame kind content rest =
    decode-packet (frame kind content) rest (6 + length content) (omega arith)
      (scan-frame kind content)
    ∙ ap₂ ◌∷◌
        (take_of_le (6 + length content) (frame kind content)
          (omega (arith, length-frame kind content)))
        (ap (λ l. decode 0 (l ++ rest))
          (drop_of_le (6 + length content) (frame kind content)
            (omega (arith, length-frame kind content))))

-- The packets of what was sent are those that were sent, in their order, whatever quiet noise there was.
pub decode-transmitted :
    (ms : List Message) → AllQuiet ms → decode 0 (transmitted ms) ≡ map frame_of ms
unfolding transmitted decode
decode-transmitted [] h = refl
decode-transmitted (m ∷ ms) h =
    decode-noise m.noise (frame_of m ++ transmitted ms) h.0
    ∙ decode-frame m.kind m.content (transmitted ms)
    ∙ ap (λ ps. frame_of m ∷ ps) (decode-transmitted ms h.1)
