-- ===== src/Daemon/Sensors.antt =====
-- crates/rat-daemon/src/sensors_health.rs, with `SourceHealth` of crates/rat-vision/src/screen.rs. The
-- mutexes are the fields of a record.
use rato.Prelude.{String, Option, none, some, List, [], ◌∷◌}
use rato.Prelude.Paths.{Text}
use rato.Prelude.{codes}

pub data SourceHealth : Type 0 where
  healthy : SourceHealth
  unavailable : Text → SourceHealth

pub record SensorGate : Type 0 where
  pub screen : SourceHealth
  pub ocr : SourceHealth

abbrev pub not_started : SensorGate
not_started = record {
  screen = unavailable (codes "not started");
  ocr = unavailable (codes "not started");
}

unfoldable pub set_screen : SourceHealth → SensorGate → SensorGate
set_screen health g = record g { screen = health }

unfoldable pub set_ocr : SourceHealth → SensorGate → SensorGate
set_ocr health g = record g { ocr = health }

pub record SensorHealthDto : Type 0 where
  pub name : String
  pub state : String
  pub reason : Option Text

unfoldable pub health_to_dto : String → SourceHealth → SensorHealthDto
health_to_dto name healthy = record { name = name; state = "ok"; reason = none }
health_to_dto name (unavailable reason) = record {
  name = name;
  state = "unavailable";
  reason = some reason;
}

unfoldable pub snapshot : SensorGate → List SensorHealthDto
unfolding health_to_dto
snapshot g = health_to_dto "screen" g.screen ∷ health_to_dto "ocr" g.ocr ∷ []
