-- ===== src/Car/Worker/Delivery.antt =====
-- What the controller reports arrives as signals: MyCarUI/SerialWorker.cpp, parseBuffer and parsePacket.
use learningproject.Common.{
  ℕ, ◌≡◌, refl, Bool, true, not, List, [], ◌∷◌, ◌++◌, some, if◌then◌else◌, ◌==◌, ◌⊎◌, inl, inr,
  arith, length, map, take-append,
}
use learningproject.Car.Frame.{byte_at, calculate_checksum, packet_tail}
use learningproject.Car.Frame.Reference.{decode}
use learningproject.Car.Frame.Sending.{
  frame, Message, AllQuiet, transmitted, frame_of, decode-transmitted, length-frame,
}
use learningproject.Car.Worker.{
  Signal, weather_data_received, car_data_received, reverse_state_changed, Readings, SerialWorker,
  parse_packet, read_weather, read_car, type_weather, type_car, differ,
}
use learningproject.Car.Worker.Feeding.{handle_packets, feed, joined, after, feed_lem}

-- A report on the weather or the car, of the size of its struct.
abbrev pub IsReport : Message → Type 0
IsReport m =
    ((m.kind ≡ type_weather) × (length m.content ≡ 17))
    ⊎ ((m.kind ≡ type_car) × (length m.content ≡ 21))

abbrev pub AllReports : List Message → Type 0
AllReports [] = Unit
AllReports (m ∷ ms) = IsReport m × AllReports ms

-- whether the car of a report goes backwards
abbrev pub reverses : Message → Bool
reverses m = not ((read_car m.content).reverse_state == 0)

-- The signals that some reports call for, where `last` is the reverse state before them.
unfoldable pub expected : Bool → List Message → List Signal
expected last [] = []
expected last (m ∷ ms) =
    let weather_first = weather_data_received (read_weather m.content) ∷ expected last ms in
    let rest = expected (reverses m) ms in
    let car_first =
      car_data_received (read_car m.content)
      ∷ (if differ (reverses m) last then reverse_state_changed (reverses m) ∷ rest else rest) in
    if m.kind == type_weather then weather_first else car_first

frame_fields :
    (kind : ℕ) (content : List ℕ)
    → (byte_at 2 (frame kind content) ≡ kind) × (byte_at 3 (frame kind content) ≡ length content)
unfolding byte_at
frame_fields kind content = (refl, refl)

parse_weather :
    (kind : ℕ) (content : List ℕ) (r : Readings)
    → kind ≡ type_weather
    → length content ≡ 17
    → parse_packet (frame kind content) r ≡ (
      record r { weather = read_weather content; weather_received = true },
      weather_data_received (read_weather content) ∷ [],
      true,
    )
unfolding parse_packet
parse_weather kind content r is_weather size = ground (
  arith,
  frame_fields kind content,
  length-frame kind content,
  take-append content (calculate_checksum kind (length content) content ∷ packet_tail ∷ []),
)

parse_car :
    (kind : ℕ) (content : List ℕ) (r : Readings)
    → kind ≡ type_car
    → length content ≡ 21
    → let reverse = not ((read_car content).reverse_state == 0) in
      parse_packet (frame kind content) r ≡ (
        record r { car = read_car content; last_reverse_state = reverse },
        car_data_received (read_car content)
            ∷ (if differ reverse r.last_reverse_state
                then reverse_state_changed reverse ∷ []
                else []),
        true,
      )
unfolding parse_packet
parse_car kind content r is_car size = ground (
  arith,
  frame_fields kind content,
  length-frame kind content,
  take-append content (calculate_checksum kind (length content) content ∷ packet_tail ∷ []),
)

handle_packets-expected :
    (ms : List Message) (r : Readings)
    → AllReports ms
    → (handle_packets (map frame_of ms) r).1 ≡ expected r.last_reverse_state ms
unfolding handle_packets expected
handle_packets-expected [] r h = refl
handle_packets-expected (m ∷ ms) r h = elim h.0 [
  | inl weather ↦
      let seen =
        handle_packets-expected ms
          (record r { weather = read_weather m.content; weather_received = true }) h.1 in
      ground (arith, weather, parse_weather m.kind m.content r weather.0 weather.1, seen)
  | inr car ↦
      let seen =
        handle_packets-expected ms
          (record r { car = read_car m.content; last_reverse_state = reverses m }) h.1 in
      ground (arith, car, parse_car m.kind m.content r car.0 car.1, seen)
]

-- The controller sends reports on weather and car, with noise on the line between them that holds no
-- HEAD1. However the bytes are cut into pieces, a worker that starts with an empty buffer emits a signal
-- for each report, in their order and with the report's data, and after one on the car a signal of its
-- reverse state exactly when that has changed.
pub feed-expected :
    (chunks : List (List ℕ)) (ms : List Message) (w : SerialWorker) (open? : Bool)
    → w.serial ≡ some open?
    → w.buffer ≡ []
    → AllQuiet ms
    → AllReports ms
    → joined chunks ≡ transmitted ms
    → (w' : SerialWorker) × (feed chunks w ≡ some (w', expected w.readings.last_reverse_state ms))
unfolding decode
feed-expected chunks ms w open? port empty quiet reports e =
    let (left, runs, _) = feed_lem chunks w open? port (rw empty nothing) in
    let all : decode 0 (w.buffer ++ joined chunks) ≡ map frame_of ms =
      rw (empty, e) (decode-transmitted ms quiet) in
    (
      after (map frame_of ms) left w,
      ground (arith, runs, all, handle_packets-expected ms w.readings reports),
    )
  where
    nothing : decode 0 [] ≡ []
    nothing = refl
