-- ===== src/Car/History/Statistics.antt =====
-- Distance, time and speed of the trips that are listed: getTotalDistance, getTotalTime and getAverageSpeed
-- of MyCarUI/HistoryDatabase.cpp. The arithmetic of `double` and the regular expressions are parameters.
use learningproject.Common.{ℕ, Bool, List, [], ◌∷◌, Option, none, some, if◌then◌else◌}
use learningproject.Chat.Text.{utf8}
use learningproject.Car.History.Interface.{HistoryData}

-- `to_double` is that of QString, and `captured rx text` the first group of the first match.
pub record Real (Double : Type 0) : Type 0 where
  pub of_nat : ℕ → Double
  pub add : Double → Double → Double
  pub mul : Double → Double → Double
  pub div : Double → Double → Double
  pub is_positive : Double → Bool
  pub to_double : List ℕ → Double
  pub captured : (rx : List ℕ) (text : List ℕ) → Option (List ℕ)

module _ {Double : Type 0} (real : Real Double) where
  -- a loop that adds to `total`
  abbrev pub add_each : (HistoryData → Double → Double) → Double → List HistoryData → Double
  add_each step total [] = total
  add_each step total (trip ∷ trips) = add_each step (step trip total) trips

  -- what a match adds, if there is one
  unfoldable pub plus_match : (rx : List ℕ) → (Double → Double) → List ℕ → Double → Double
  plus_match rx scaled text total = elim (real.captured rx text) [
    | none ↦ total
    | some digits ↦ real.add total (scaled (real.to_double digits))
  ]

  unfoldable pub hours_of : List ℕ → Double
  hours_of text =
      let days =
        plus_match (utf8 "(\\d+)天") (λ x. real.mul x (real.of_nat 24)) text (real.of_nat 0) in
      let hours = plus_match (utf8 "(\\d+)小时") (λ x. x) text days in
      plus_match (utf8 "(\\d+)分钟") (λ x. real.div x (real.of_nat 60)) text hours

  unfoldable pub get_total_distance : List HistoryData → Double
  get_total_distance trips =
      add_each (λ trip. plus_match (utf8 "([\\d.]+)") (λ x. x) trip.dist) (real.of_nat 0) trips

  unfoldable pub get_total_time : List HistoryData → Double
  get_total_time trips =
      add_each (λ trip total. real.add total (hours_of trip.time)) (real.of_nat 0) trips

  unfoldable pub get_average_speed : List HistoryData → Double
  get_average_speed trips =
      let total_time = get_total_time trips in
      if real.is_positive total_time
      then real.div (get_total_distance trips) total_time
      else real.of_nat 0
