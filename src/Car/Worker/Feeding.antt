-- ===== src/Car/Worker/Feeding.antt =====
-- A stream of bytes that arrives in pieces: onReadyRead and parseBuffer of MyCarUI/SerialWorker.cpp against
-- the packets of the whole stream.
use mathlib.Core.List.{append-nil, append_assoc}
use learningproject.Common.{
  ℕ, zero, suc, ◌+◌, ◌≡◌, refl, sym, ap, ◌∙◌, Bool, List, [], ◌∷◌, ◌++◌, Option, some, ◌>>=◌, arith,
  length, inl, inr, Option-cases,
}
use learningproject.Car.Frame.{round}
use learningproject.Car.Frame.Reference.{decode}
use learningproject.Car.Frame.Rounds.{Round-cases}
use learningproject.Car.Frame.Stream.{parse_rounds, parse_rounds-Parses}
use learningproject.Car.Worker.{
  Signal, Readings, SerialWorker, parse_packet, parse_buffer, on_ready_read,
}

-- what some packets do, one after another
unfoldable pub handle_packets : List (List ℕ) → Readings → Readings × List Signal
handle_packets [] r = (r, [])
handle_packets (p ∷ ps) r =
    let (r', signals, _) = parse_packet p r in
    let (r'', more) = handle_packets ps r' in (r'', signals ++ more)

-- the worker with these packets handled, and this buffer
abbrev pub after : List (List ℕ) → List ℕ → SerialWorker → SerialWorker
after ps left w = record w { buffer = left; readings = (handle_packets ps w.readings).0 }

abbrev pub sent : List (List ℕ) → SerialWorker → List Signal
sent ps w = (handle_packets ps w.readings).1

pub handle_packets-append :
    (ps qs : List (List ℕ)) (r : Readings)
    → let (r', signals) = handle_packets ps r in
      let (r'', more) = handle_packets qs r' in handle_packets (ps ++ qs) r ≡ (r'', signals ++ more)
unfolding handle_packets
handle_packets-append [] qs r = refl
handle_packets-append (p ∷ ps) qs r = ground (
  arith,
  handle_packets-append ps qs (parse_packet p r).0,
  append_assoc (parse_packet p r).1 (handle_packets ps (parse_packet p r).0).1
      (handle_packets qs (handle_packets ps (parse_packet p r).0).0).1,
)

parse_buffer-rounds :
    (fuel : ℕ) (w : SerialWorker) (ps : List (List ℕ)) (left : List ℕ)
    → parse_rounds fuel w.buffer ≡ some (ps, left)
    → parse_buffer fuel w ≡ some (after ps left w, sent ps w)
unfolding parse_rounds parse_buffer handle_packets
parse_buffer-rounds zero w ps left e = cc
parse_buffer-rounds (suc fuel) w ps left e = elim (Round-cases (round w.buffer)) [
  | inl (rest, r) ↦ ground (arith, r)
  | inr (inl (rest, r)) ↦
      rw (r, parse_buffer)
        (parse_buffer-rounds fuel (record w { buffer = rest }) ps left (rw (r, parse_rounds) at e))
  | inr (inr (p, rest, r)) ↦ elim (Option-cases (parse_rounds fuel rest)) [
    | inl missing ↦ ground (arith, r, missing)
    | inr ((qs, left'), later) ↦ ground (
      arith,
      r,
      later,
      parse_buffer-rounds fuel
          (record w { buffer = rest; readings = (parse_packet p w.readings).0 }) qs left' later,
    )
  ]
]

-- some readyRead signals, one after another
unfoldable pub feed : List (List ℕ) → SerialWorker → Option (SerialWorker × List Signal)
feed [] w = some (w, [])
feed (bytes ∷ more) w = do
  (w', signals) ← on_ready_read bytes w
  (w'', signals') ← feed more w'
  some (w'', signals ++ signals')

abbrev pub joined : List (List ℕ) → List ℕ
joined [] = []
joined (bytes ∷ more) = bytes ++ joined more

pub on_ready_read-rounds :
    (bytes : List ℕ) (w : SerialWorker) (open? : Bool) (ps : List (List ℕ)) (left : List ℕ)
    → w.serial ≡ some open?
    → parse_rounds (length (w.buffer ++ bytes) + 1) (w.buffer ++ bytes) ≡ some (ps, left)
    → on_ready_read bytes w ≡ some (after ps left w, sent ps w)
unfolding on_ready_read
on_ready_read-rounds bytes w open? ps left port e = ground (
  arith,
  port,
  parse_buffer-rounds (length (w.buffer ++ bytes) + 1) (record w { buffer = w.buffer ++ bytes }) ps
      left e,
)

-- However the bytes from the port are cut into pieces, the worker emits the signals of the packets of the
-- whole stream, in their order, and ends with the readings of those; the bytes that it keeps hold no
-- further packet. The buffer must hold none at the start.
pub feed_lem :
    (chunks : List (List ℕ)) (w : SerialWorker) (open? : Bool)
    → w.serial ≡ some open?
    → decode 0 w.buffer ≡ []
    → let ps = decode 0 (w.buffer ++ joined chunks) in
      (left : List ℕ) × (feed chunks w ≡ some (after ps left w, sent ps w)) × (decode 0 left ≡ [])
unfolding feed handle_packets
feed_lem [] w open? port quiet =
    let none_yet : decode 0 (w.buffer ++ []) ≡ [] = ap (decode 0) (append-nil w.buffer) ∙ quiet in
    (w.buffer, rw none_yet refl, quiet)
feed_lem (bytes ∷ more) w open? port quiet =
    let (ps, left, p) =
      parse_rounds-Parses (length (w.buffer ++ bytes) + 1) (w.buffer ++ bytes) (omega arith) in
    let (left', e, quiet') = feed_lem more (after ps left w) open? port p.quiet in
    let all : decode 0 (w.buffer ++ (bytes ++ joined more)) ≡ ps ++ decode 0 (left ++ joined more) =
      ap (decode 0) (sym (append_assoc w.buffer bytes (joined more))) ∙ p.same (joined more) in
    (
      left',
      ground (
        arith,
        on_ready_read-rounds bytes w open? ps left port p.ends,
        e,
        all,
        handle_packets-append ps (decode 0 (left ++ joined more)) w.readings,
      ),
      quiet',
    )
