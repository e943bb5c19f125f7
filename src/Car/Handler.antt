-- ===== src/Car/Handler.antt =====
-- What the dashboard shows: SerialHandler of MyCarUI/SerialHandler.cpp, that takes the worker's signals from
-- a queue, and tells the user interface which of its properties changed.
pub mod Mirror
use learningproject.Common.{ℕ, Bool, true, false, List, [], ◌∷◌, ◌++◌, if◌then◌else◌, ◌==◌}
use learningproject.Car.Worker.{
  WeatherInfo, CarInfo, Signal, weather_data_received, car_data_received, reverse_state_changed,
  connected, disconnected, error_occurred, differ,
}

pub record SerialHandler : Type 0 where
  pub is_connected : Bool
  pub weather_received : Bool
  pub is_reversing : Bool
  pub weather : WeatherInfo
  pub car : CarInfo

-- the signals of the handler
pub data Notice : Type 0 where
  connected_changed weather_received_changed weather_data_changed car_data_changed : Notice
  reverse_notice : Bool → Notice
  error_notice : Notice

-- the slots that the worker's signals are connected to
unfoldable pub on_signal : Signal → SerialHandler → SerialHandler × List Notice
on_signal (weather_data_received weather) h = (
  record h { weather = weather; weather_received = true },
  (if h.weather_received then [] else weather_received_changed ∷ []) ++ weather_data_changed ∷ [],
)
on_signal (car_data_received car) h = (record h { car = car }, car_data_changed ∷ [])
on_signal (reverse_state_changed is_reverse) h =
    if differ h.is_reversing is_reverse
    then (record h { is_reversing = is_reverse }, reverse_notice is_reverse ∷ [])
    else (h, [])
on_signal connected h = (record h { is_connected = true }, connected_changed ∷ [])
on_signal disconnected h = (record h { is_connected = false }, connected_changed ∷ [])
on_signal error_occurred h = (h, error_notice ∷ [])

-- the event loop over the queue
unfoldable pub on_signals : List Signal → SerialHandler → SerialHandler × List Notice
on_signals [] h = (h, [])
on_signals (s ∷ ss) h =
    let (h', notices) = on_signal s h in
    let (h'', more) = on_signals ss h' in (h'', notices ++ more)

pub data Weather : Type 0 where
  sunny cloudy rainy unknown : Weather

unfoldable pub weather_type : SerialHandler → Weather
weather_type h =
    let weather = h.weather.weather in
    if weather == b'S'
    then sunny
    else if weather == b'C'
    then cloudy
    else if weather == b'R'
    then rainy
    else unknown
