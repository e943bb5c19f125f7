-- ===== src/Car/Frame/Stream.antt =====
-- The loop of parseBuffer (MyCarUI/SerialWorker.cpp) over a stream that arrives in pieces.
use learningproject.Common.{
  ℕ, zero, suc, ◌<◌, ◌≡◌, refl, ap, ◌∙◌, List, [], ◌∷◌, ◌++◌, Option, none, some, length, arith,
}
use learningproject.Car.Frame.{Round, stop, again, found, round}
use learningproject.Car.Frame.Reference.{decode}
use learningproject.Car.Frame.Rounds.{Keeps, round-Keeps}

-- The packets that the loop hands to parsePacket, and the buffer that it leaves; `none` if the fuel runs
-- out.
unfoldable pub parse_rounds : ℕ → List ℕ → Option (List (List ℕ) × List ℕ)
parse_rounds zero buffer = none
parse_rounds (suc fuel) buffer = elim (round buffer) [
  | stop left ↦ some ([], left)
  | again left ↦ parse_rounds fuel left
  | found packet left ↦ elim (parse_rounds fuel left) [
    | none ↦ none
    | some (packets, left') ↦ some (packet ∷ packets, left')
  ]
]

-- What the loop promises: it ends, and the packets that it hands out with those of the buffer that it
-- leaves are the packets of the stream, whatever bytes follow; the buffer alone holds none.
pub record Parsed (fuel : ℕ) (buffer : List ℕ) (packets : List (List ℕ)) (left : List ℕ)
    : Type 0 where
  pub ends : parse_rounds fuel buffer ≡ some (packets, left)
  pub same : (c : List ℕ) → decode 0 (buffer ++ c) ≡ packets ++ decode 0 (left ++ c)
  pub quiet : decode 0 left ≡ []

abbrev pub Parses : ℕ → List ℕ → Type 0
Parses fuel buffer = (packets : List (List ℕ)) × (left : List ℕ) × Parsed fuel buffer packets left

one_round :
    (fuel : ℕ) (buffer : List ℕ) (r : Round)
    → round buffer ≡ r
    → Keeps r buffer
    → ((left : List ℕ) → length left < length buffer → Parses fuel left)
    → Parses (suc fuel) buffer
unfolding parse_rounds
one_round fuel buffer (stop left) e k more =
    ([], left, record { ends = rw (e, parse_rounds) refl; same = k.0; quiet = k.1 })
one_round fuel buffer (again left) e k more =
    let (packets, left', p) = more left k.1 in
    (
      packets,
      left',
      record { ends = rw (e, parse_rounds) p.ends; same = λ c. k.0 c ∙ p.same c; quiet = p.quiet },
    )
one_round fuel buffer (found packet left) e k more =
    let (packets, left', p) = more left k.1 in
    (
      packet ∷ packets,
      left',
      record {
        ends = rw (e, p.ends, parse_rounds) refl;
        same = λ c. k.0 c ∙ ap (λ ps. packet ∷ ps) (p.same c);
        quiet = p.quiet;
      },
    )

-- One round for each byte and one more are enough.
pub parse_rounds-Parses : (fuel : ℕ) (buffer : List ℕ) → length buffer < fuel → Parses fuel buffer
parse_rounds-Parses zero buffer h = absurd (omega arith)
parse_rounds-Parses (suc fuel) buffer h =
    one_round fuel buffer (round buffer) refl (round-Keeps buffer)
      (λ left lt. parse_rounds-Parses fuel left (omega arith))
