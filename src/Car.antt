-- ===== src/Car.antt =====
-- The dashboard of a car (MyCarUI): the link to the car's controller over a serial line.
pub mod Frame
pub mod Worker
pub mod Handler
pub mod History
mod Tests
