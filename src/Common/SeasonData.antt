-- ===== src/Common/SeasonData.antt =====
-- src/common/season_data.h: the roster, the cars, the track, and the two look-ups.
pub mod Roster
mod Tests
use f1_telemetry.Prelude.{ℕ, ◌+◌, List, [], ◌∷◌, map, get_or, if◌then◌else◌}
use f1_telemetry.Prelude.Int.{ℤ, pos, negsuc}
use f1_telemetry.Float.{Float}
use f1_telemetry.Common.Text.{Text, text, text_eq}
use f1_telemetry.Common.Types.{DriverProfile, CarProfile, TrackProfile}

-- A line of `DRIVERS`, its four `float` literals in hundredths.
pub record DriverRow : Type 0 where
  pub id : Text
  pub name : Text
  pub team : Text
  pub aggression : ℕ
  pub consistency : ℕ
  pub tire_mgmt : ℕ
  pub risk_tolerance : ℕ

-- A line of `CARS`, likewise.
pub record CarRow : Type 0 where
  pub team : Text
  pub engine_power : ℕ
  pub aero_efficiency : ℕ
  pub cooling : ℕ
  pub reliability : ℕ

abbrev row : Text → Text → Text → ℕ → ℕ → ℕ → ℕ → DriverRow
row i n t a c m r = record {
  id = i;
  name = n;
  team = t;
  aggression = a;
  consistency = c;
  tire_mgmt = m;
  risk_tolerance = r;
}

abbrev car_row : Text → ℕ → ℕ → ℕ → ℕ → CarRow
car_row t e a c r = record {
  team = t;
  engine_power = e;
  aero_efficiency = a;
  cooling = c;
  reliability = r;
}

unfoldable pub driver_rows : List DriverRow
driver_rows =
    row (text "VER") (text "Max Verstappen") (text "Red Bull") 85 95 80 70
    ∷ row (text "TSU") (text "Yuki Tsunoda") (text "Red Bull") 75 75 65 70
    ∷ row (text "LEC") (text "Charles Leclerc") (text "Ferrari") 80 85 75 80
    ∷ row (text "HAM") (text "Lewis Hamilton") (text "Ferrari") 70 92 90 55
    ∷ row (text "NOR") (text "Lando Norris") (text "McLaren") 78 88 72 72
    ∷ row (text "PIA") (text "Oscar Piastri") (text "McLaren") 65 85 80 60
    ∷ row (text "RUS") (text "George Russell") (text "Mercedes") 72 90 82 65
    ∷ row (text "ANT") (text "Kimi Antonelli") (text "Mercedes") 80 65 60 75
    ∷ row (text "ALO") (text "Fernando Alonso") (text "Aston Martin") 75 93 92 68
    ∷ row (text "STR") (text "Lance Stroll") (text "Aston Martin") 60 70 68 55
    ∷ row (text "GAS") (text "Pierre Gasly") (text "Alpine") 70 78 70 65
    ∷ row (text "DOO") (text "Jack Doohan") (text "Alpine") 72 62 58 70
    ∷ row (text "ALB") (text "Alex Albon") (text "Williams") 68 82 78 62
    ∷ row (text "SAI") (text "Carlos Sainz") (text "Williams") 75 88 85 67
    ∷ row (text "HUL") (text "Nico Hulkenberg") (text "Haas") 72 80 72 65
    ∷ row (text "OCO") (text "Esteban Ocon") (text "Haas") 68 75 70 62
    ∷ row (text "LAW") (text "Liam Lawson") (text "RB") 76 72 65 73
    ∷ row (text "HAD") (text "Isack Hadjar") (text "RB") 74 65 60 70
    ∷ row (text "BOT") (text "Valtteri Bottas") (text "Sauber") 65 82 80 55
    ∷ row (text "BEA") (text "Oliver Bearman") (text "Sauber") 73 68 62 72
    ∷ []

unfoldable pub car_rows : List CarRow
car_rows =
    car_row (text "Red Bull") 97 95 90 92
    ∷ car_row (text "Ferrari") 96 94 88 90
    ∷ car_row (text "McLaren") 95 96 87 91
    ∷ car_row (text "Mercedes") 93 92 89 93
    ∷ car_row (text "Aston Martin") 88 87 85 88
    ∷ car_row (text "Alpine") 83 82 80 84
    ∷ car_row (text "Williams") 82 81 79 83
    ∷ car_row (text "Haas") 80 79 78 81
    ∷ car_row (text "RB") 84 83 81 85
    ∷ car_row (text "Sauber") 78 77 76 79
    ∷ []

-- `driver_index_of` and `PenaltyEnforcer::driver_index`: the loop from index `i` on, -1 at its end.
unfoldable pub index_from : ℕ → List DriverRow → Text → ℤ
index_from i [] id = negsuc 0
index_from i (r ∷ rows) id = if text_eq r.id id then pos i else index_from (i + 1) rows id

unfoldable pub driver_index_of : Text → ℤ
unfolding index_from
driver_index_of id = index_from 0 driver_rows id

module _ {F : Type 0} ⦃f : Float F⦄ where
  open f use {decimal}

  unfoldable pub profile_of : DriverRow → DriverProfile F
  profile_of r = record {
    id = r.id;
    name = r.name;
    team = r.team;
    aggression = decimal r.aggression 2;
    consistency = decimal r.consistency 2;
    tire_mgmt = decimal r.tire_mgmt 2;
    risk_tolerance = decimal r.risk_tolerance 2;
  }

  pub car_of : CarRow → CarProfile F
  car_of r = record {
    team = r.team;
    engine_power = decimal r.engine_power 2;
    aero_efficiency = decimal r.aero_efficiency 2;
    cooling = decimal r.cooling 2;
    reliability = decimal r.reliability 2;
  }

  unfoldable pub drivers : List (DriverProfile F)
  unfolding profile_of driver_rows
  drivers = map profile_of driver_rows

  unfoldable pub cars : List (CarProfile F)
  unfolding car_of car_rows
  cars = map car_of car_rows

  unfoldable pub default_track : TrackProfile F
  default_track = record {
    name = text "Circuit de Wall";
    length_km = decimal 54 1;
    sectors = 3;
    tire_deg_factor = decimal 10 1;
    fuel_consumption = decimal 23 1;
  }

  -- The loop of `car_for_driver` over what is left of `CARS`, with the fallback `CARS[9]`.
  car_from : List (CarProfile F) → CarProfile F → Text → CarProfile F
  car_from [] fallback team = fallback
  car_from (c ∷ cs) fallback team = if text_eq c.team team then c else car_from cs fallback team

  unfoldable pub car_for_driver : DriverProfile F → CarProfile F
  unfolding car_from car_of
  car_for_driver d = car_from cars (get_or cars 9 (car_of (car_row [] 0 0 0 0))) d.team
