-- ===== src/Car/Tests.antt =====
-- Runs of the model of the dashboard's serial link (MyCarUI).
mod Shelf
mod History
use learningproject.Common.{
  ℕ, ◌≡◌, refl, true, false, List, [], ◌∷◌, ◌++◌, some, arith, inl, inr, replicate,
}
use learningproject.Car.Frame.{calculate_checksum, checksum_from, byte_at}
use learningproject.Car.Frame.Reference.{starts, scan, decode}
use learningproject.Car.Frame.Sending.{Message, transmitted, frame}
use learningproject.Car.Worker.{WeatherInfo, CarInfo, SerialWorker, Readings, request_packet}
use learningproject.Car.Worker.Feeding.{feed, joined, after, sent, feed_lem}
use learningproject.Car.Worker.Delivery.{AllReports, expected, feed-expected}
use learningproject.Car.Handler.{SerialHandler}
use learningproject.Car.Handler.Mirror.{
  Event, ready_read, start, stop, timeout, run, Mirrors, run-Mirrors,
}

abbrev no_weather : WeatherInfo
no_weather = record {
  weather = 0;
  perceived_temperature = 0;
  humidity = 0;
  morning_temperature = 0;
  evening_temperature = 0;
}

abbrev no_car : CarInfo
no_car = record {
  speed = 0;
  rotational_speed = 0;
  fuel_capacity = 0;
  battery_capacity = 0;
  reverse_state = 0;
  temperature = 0;
}

abbrev nothing_read : Readings
nothing_read = record {
  weather = no_weather;
  car = no_car;
  weather_received = false;
  last_reverse_state = false;
}

abbrev worker : SerialWorker
worker = record { serial = some true; requesting = true; buffer = []; readings = nothing_read }

abbrev handler : SerialHandler
handler = record {
  is_connected = true;
  weather_received = false;
  is_reversing = false;
  weather = no_weather;
  car = no_car;
}

-- a car that goes backwards at speed 5
abbrev car_bytes : List ℕ
car_bytes = 5 ∷ 0 ∷ 0 ∷ 0 ∷ (replicate 12 0 ++ 1 ∷ 20 ∷ 0 ∷ 0 ∷ 0 ∷ [])

abbrev weather_bytes : List ℕ
weather_bytes = b'S' ∷ 25 ∷ (replicate 15 0)

abbrev reports : List Message
reports =
    record { noise = 1 ∷ 0x55 ∷ []; kind = 2; content = car_bytes }
    ∷ record { noise = []; kind = 1; content = weather_bytes }
    ∷ []

abbrev pieces : List (List ℕ)
pieces =
    (1 ∷ 0x55 ∷ 0xAA ∷ [])
    ∷ (0x55 ∷ 2 ∷ 21 ∷ (car_bytes ++ calculate_checksum 2 21 car_bytes ∷ 0xEE ∷ []))
    ∷ frame 1 weather_bytes
    ∷ []

-- The packet that asks for the weather has the right check byte.
request-decode : decode 0 request_packet ≡ request_packet ∷ []
unfolding decode scan starts byte_at calculate_checksum checksum_from
request-decode = refl

feed_lem_example :
    let ps = decode 0 ([] ++ joined pieces) in
    (left : List ℕ) × (feed pieces worker ≡ some (after ps left worker, sent ps worker))
    × (decode 0 left ≡ [])
unfolding decode
feed_lem_example = feed_lem pieces worker true refl refl

reports-AllReports : AllReports reports
reports-AllReports = (inr (refl, refl), (inl (refl, refl), tt))

pieces-joined : joined pieces ≡ transmitted reports
unfolding transmitted
pieces-joined = refl

feed-expected_example :
    (w' : SerialWorker) × (feed pieces worker ≡ some (w', expected false reports))
feed-expected_example =
    feed-expected pieces reports worker true refl refl (ground arith) reports-AllReports
      pieces-joined

worker-Mirrors : Mirrors worker handler
worker-Mirrors = record {
  shows = record { weather = refl; car = refl; reversing = refl };
  linked = refl;
}

abbrev events : List Event
events = ready_read (frame 2 car_bytes) ∷ timeout ∷ start false ∷ stop ∷ start true ∷ []

run-Mirrors_example :
    (w' : SerialWorker) × (h' : SerialHandler) × (run events worker handler ≡ some (w', h'))
    × Mirrors w' h'
run-Mirrors_example = run-Mirrors events worker handler worker-Mirrors
