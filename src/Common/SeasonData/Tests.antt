-- ===== src/Common/SeasonData/Tests.antt =====
-- The look-ups of src/common/season_data.h at single drivers.
use f1_telemetry.Prelude.{◌≡◌, refl}
use f1_telemetry.Prelude.Int.{negsuc}
use f1_telemetry.Float.Fixed.{fixed_float}
use f1_telemetry.Common.Text.{text, text_eq}
use f1_telemetry.Common.SeasonData.{DriverRow, driver_rows, driver_index_of, index_from}

nobody_is_schumacher : driver_index_of (text "MSC") ≡ negsuc 0
unfolding driver_index_of driver_rows index_from text_eq
nobody_is_schumacher = refl

abbrev norris : DriverRow
norris = record {
  id = text "NOR";
  name = text "Lando Norris";
  team = text "McLaren";
  aggression = 78;
  consistency = 88;
  tire_mgmt = 72;
  risk_tolerance = 72;
}
