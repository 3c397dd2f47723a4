-- ===== src/Domain/Samples.antt =====
-- Entities that the tests use.
use tripvault.Base.{ℕ, false, none, some, [], ◌∷◌}
use tripvault.Domain.Kinds
use tripvault.Domain.Kinds.{
  item_place, split_everyone, mode_car, cost_food, cost_tolls, category_food, status_planned,
  document_plan,
}
use tripvault.Domain.Records.{Item, CostShare, Stay, Expense, Day, Stop, Track}
use tripvault.Domain.Journeys.{Leg}
use tripvault.Base.Text.{text}
use tripvault.Domain.Content.{DocumentContent, Trip}

abbrev pub share : ℕ → CostShare
share user = record { user_id = user; amount = none }

-- A lunch that three people share.
abbrev pub lunch : Item
lunch = record {
  id = 1;
  document_id = 1;
  day_id = some 1;
  position = 0;
  kind = item_place;
  anchor = Kinds.AnchorSlot.unset;
  stay_id = none;
  name = 76 ∷ [];
  category = category_food;
  activity_type = Kinds.ActivityType.unset;
  lat = none;
  lng = none;
  address = [];
  osm_ref = [];
  description_md = [];
  url = [];
  desired_time = none;
  visit_minutes = 60;
  is_optional = false;
  booking_ref = [];
  planned_cost = some 1000;
  cost_per_person = false;
  cost_category = cost_food;
  cost_note = [];
  paid_by = some 7;
  cost_split = split_everyone;
  cost_shares = share 8 ∷ share 7 ∷ share 9 ∷ [];
  status = status_planned;
  story_md = [];
  actual_time = none;
  actual_end_time = none;
  rating = none;
  actual_cost = none;
  cover_media_id = none;
  difficulty = none;
  created_at = 0;
  updated_at = 0;
}

-- A room for 300.00, and the tolls of the whole trip.
abbrev pub room : Stay
room = record {
  id = 2;
  document_id = 1;
  name = 72 ∷ [];
  kind = [];
  address = [];
  lat = none;
  lng = none;
  check_in_date = 0;
  check_in_time = none;
  check_out_date = 0;
  check_out_time = none;
  booking_ref = [];
  url = [];
  contacts = [];
  notes_md = [];
  planned_cost = some 30000;
  actual_cost = none;
  created_at = 0;
  updated_at = 0;
}

abbrev pub tolls : Expense
tolls = record {
  id = 3;
  document_id = 1;
  day_id = none;
  category = cost_tolls;
  planned = some 4000;
  actual = none;
  spent_on = none;
  note = 84 ∷ [];
  comment = [];
  url = [];
  created_at = 0;
  updated_at = 0;
}

abbrev pub first_day : Day
first_day = record {
  id = 1;
  document_id = 1;
  position = 0;
  date = none;
  title = [];
  notes_md = [];
  highlight = [];
  start_time = 540;
  default_mode = none;
  timezone = none;
  morning_anchor = false;
  evening_anchor = false;
  no_overnight = false;
  cover_media_id = none;
  created_at = 0;
  updated_at = 0;
}

-- A plan with that day, the lunch on it, a second lunch on no day, the room and the tolls.
abbrev pub content : DocumentContent
content = record {
  document = record {
    id = 1;
    trip_id = 1;
    kind = document_plan;
    intro_md = [];
    summary_md = [];
    created_at = 0;
    updated_at = 0;
  };
  days = first_day ∷ [];
  items = lunch ∷ record lunch { id = 4; day_id = none } ∷ [];
  stays = room ∷ [];
  transfers = [];
  legs = [];
  expenses = tolls ∷ [];
  tracks = [];
  translations = [];
}

abbrev pub trip : Trip
trip = record {
  id = 1;
  owner_id = 7;
  kind = document_plan;
  source_trip_id = none;
  from_plan = false;
  title = 84 ∷ [];
  summary = [];
  start_date = none;
  end_date = none;
  timezone = [];
  currency = 69 ∷ [];
  travelers = 3;
  budget = some 70000;
  cover_media_id = none;
  cover_crop = none;
  languages = [];
  state = [];
  track_speed_kmh = 0;
  created_at = 0;
  updated_at = 0;
}

-- A drive from the lunch to another element.
abbrev pub drive : Leg
drive = record {
  id = 70;
  document_id = 1;
  day_id = 1;
  from_item_id = 1;
  to_item_id = 5;
  mode = mode_car;
  distance_m = some 9000;
  duration_s = some 600;
  geometry = [];
  source = text "provider";
  error = [];
  input = [];
  calculated_at = none;
  manual_distance_m = none;
  manual_duration_s = none;
  planned_cost = none;
  actual_cost = none;
  note = [];
  preference = [];
  via = [];
  pinned = false;
  segments = [];
  tickets = [];
  created_at = 0;
  updated_at = 0;
}

-- A stop along the recording of a walk.
abbrev pub view : Stop
view = record {
  id = 80;
  document_id = 1;
  item_id = 1;
  kind = [];
  name = text "View";
  note_md = [];
  point = record { lat = 100; lng = 100 };
  distance_m = 0;
  grades_to = [];
  actual_time = none;
  planned_cost = none;
  actual_cost = none;
  cost_per_person = false;
  cost_category = cost_food;
  cost_note = [];
  paid_by = none;
  cost_split = split_everyone;
  cost_shares = [];
  created_at = 0;
}

abbrev pub walk : Track
walk = record {
  id = 90;
  document_id = 1;
  item_id = 1;
  original_name = text "walk.gpx";
  format = text "gpx";
  file_size = 1000;
  geometry = [];
  distance_m = 400;
  point_count = 3;
  ascent_m = none;
  descent_m = none;
  grades = [];
  speed_kmh = none;
  started_at = none;
  ended_at = none;
  climb_version = 0;
  created_at = 0;
  stops = view ∷ [];
}
