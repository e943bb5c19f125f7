-- ===== src/Car/Worker.antt =====
-- The thread that reads the serial port: SerialWorker of MyCarUI/SerialWorker.cpp. The port and the timer
-- are Qt's; what they report comes in as arguments, and what the worker does to them is in its state and
-- results. Numbers in a packet are little-endian bit patterns.
pub mod Feeding
pub mod Delivery
use learningproject.Common.{
  ℕ, zero, suc, ◌+◌, ◌*◌, Bool, true, false, not, ◌&&◌, ◌||◌, List, [], ◌∷◌, ◌++◌, Option, none,
  some, if◌then◌else◌, ◌==◌, ltb, length, take, drop,
}
use learningproject.Car.Frame.{
  packet_head1, packet_head2, packet_tail, byte_at, Round, stop, again, found, round,
}

abbrev pub type_weather : ℕ
type_weather = 1

abbrev pub type_car : ℕ
type_car = 2

abbrev pub type_request_weather : ℕ
type_request_weather = 4

-- `WeatherInfo` and `CarInfo`; the four bytes of a field are the pattern of an int32_t or a float.
pub record WeatherInfo : Type 0 where
  pub weather : ℕ
  pub perceived_temperature : ℕ
  pub humidity : ℕ
  pub morning_temperature : ℕ
  pub evening_temperature : ℕ

pub record CarInfo : Type 0 where
  pub speed : ℕ
  pub rotational_speed : ℕ
  pub fuel_capacity : ℕ
  pub battery_capacity : ℕ
  pub reverse_state : ℕ
  pub temperature : ℕ

abbrev pub word_at : ℕ → List ℕ → ℕ
word_at k bs =
    byte_at k bs
    + 256 * byte_at (k + 1) bs
    + 65536 * byte_at (k + 2) bs
    + 16777216 * byte_at (k + 3) bs

-- the two `memcpy`
unfoldable pub read_weather : List ℕ → WeatherInfo
read_weather bs = record {
  weather = byte_at 0 bs;
  perceived_temperature = word_at 1 bs;
  humidity = word_at 5 bs;
  morning_temperature = word_at 9 bs;
  evening_temperature = word_at 13 bs;
}

unfoldable pub read_car : List ℕ → CarInfo
read_car bs = record {
  speed = word_at 0 bs;
  rotational_speed = word_at 4 bs;
  fuel_capacity = word_at 8 bs;
  battery_capacity = word_at 12 bs;
  reverse_state = byte_at 16 bs;
  temperature = word_at 17 bs;
}

pub data Signal : Type 0 where
  weather_data_received : WeatherInfo → Signal
  car_data_received : CarInfo → Signal
  reverse_state_changed : Bool → Signal
  connected disconnected error_occurred : Signal

-- what was read so far
pub record Readings : Type 0 where
  pub weather : WeatherInfo
  pub car : CarInfo
  pub weather_received : Bool
  pub last_reverse_state : Bool

-- `serial` is null, or a port that is open or not; `requesting` says that the timer runs.
pub record SerialWorker : Type 0 where
  pub serial : Option Bool
  pub requesting : Bool
  pub buffer : List ℕ
  pub readings : Readings

-- whether two flags differ
abbrev pub differ : Bool → Bool → Bool
differ true b = not b
differ false b = b

-- parsePacket: the signals, and the result, that no one uses
unfoldable pub parse_packet : List ℕ → Readings → Readings × List Signal × Bool
parse_packet packet r =
    let kind = byte_at 2 packet in
    let len = byte_at 3 packet in
    let content = take len (drop 4 packet) in
    if ltb (length packet) 6
    then (r, [], false)
    else if kind == type_weather && len == 17
    then (
      record r { weather = read_weather content; weather_received = true },
      weather_data_received (read_weather content) ∷ [],
      true,
    )
    else if kind == type_car && len == 21
    then (let car = read_car content in
        let reverse = not (car.reverse_state == 0) in
        (
          record r { car = car; last_reverse_state = reverse },
          car_data_received car
              ∷ (if differ reverse r.last_reverse_state
                  then reverse_state_changed reverse ∷ []
                  else []),
          true,
        ))
    else (r, [], false)

-- The loop of parseBuffer; `none` says that the fuel ran out.
unfoldable pub parse_buffer : ℕ → SerialWorker → Option (SerialWorker × List Signal)
parse_buffer zero w = none
parse_buffer (suc fuel) w = elim (round w.buffer) [
  | stop left ↦ some (record w { buffer = left }, [])
  | again left ↦ parse_buffer fuel (record w { buffer = left })
  | found packet left ↦
      let (readings, signals, _) = parse_packet packet w.readings in
      elim (parse_buffer fuel (record w { buffer = left; readings = readings })) [
        | none ↦ none
        | some (w', more) ↦ some (w', signals ++ more)
      ]
]

-- onReadyRead, where `readAll` returns `bytes`
unfoldable pub on_ready_read : List ℕ → SerialWorker → Option (SerialWorker × List Signal)
on_ready_read bytes w = elim w.serial [
  | none ↦ some (w, [])
  | some open? ↦
      let buffer = w.buffer ++ bytes in
      parse_buffer (length buffer + 1) (record w { buffer = buffer })
]

unfoldable pub stop_work : SerialWorker → SerialWorker × List Signal
stop_work w = (
  record w { requesting = false; serial = none; buffer = [] },
  elim w.serial [ none ↦ [] | some open? ↦ disconnected ∷ [] ],
)

-- `opened` is the result of `open`.
unfoldable pub start_work : Bool → SerialWorker → SerialWorker × List Signal
unfolding stop_work
start_work opened w =
    let stopped : SerialWorker × List Signal = elim w.serial [
      | none ↦ (w, [])
      | some open? ↦ stop_work w
    ] in
    let (w', signals) = stopped in
    if opened
    then (
      record w' {
        serial = some true;
        requesting = true;
        readings = record w'.readings { weather_received = false };
      },
      signals ++ connected ∷ [],
    )
    else (record w' { serial = some false }, signals ++ error_occurred ∷ [])

-- `no_error` is what `error == NoError` says. The slot is connected to m_serial alone, in its own thread, so that
-- m_serial is there when it runs; a call without it, which would read a null pointer, is not modelled.
unfoldable pub on_error_occurred : Bool → List Signal
on_error_occurred no_error = if no_error then [] else error_occurred ∷ []

abbrev pub request_packet : List ℕ
request_packet =
    packet_head1 ∷ packet_head2 ∷ type_request_weather ∷ 0 ∷ type_request_weather ∷ packet_tail ∷ []

-- requestWeatherData: the bytes that are written
unfoldable pub request_weather_data : SerialWorker → SerialWorker × List ℕ
request_weather_data w = elim w.serial [
  | none ↦ (w, [])
  | some false ↦ (w, [])
  | some true ↦
      if w.readings.weather_received
      then (record w { requesting = false }, [])
      else (w, request_packet)
]
