-- ===== src/Errors/SideOutput/Tests.antt =====
-- Side outputs at concrete events.
use gress.Common.{
  ℕ, String, string_key, List, [], ◌∷◌, ◌≡◌, none, some, pos, Bool, true, if◌then◌else◌, take,
}
use gress.Common.Dict.{get}
use gress.Errors.Classification.{fatal}
use gress.Errors.SideOutput.{
  SideOutputEvent, SideOutputConfig, default_side_output_config, create_collector,
  error_side_output, late_event_side_output,
}
use gress.Errors.SideOutput.Emitted.{emit_all, of_tag, items_of, items-emit_all-errors}

abbrev event : String → ℕ → SideOutputEvent ℕ Bool
event tag value = record {
  key = "k";
  value = value;
  event_time = pos 5;
  headers = [];
  offset = pos 0;
  partition = pos 0;
  error = true;
  error_category = fatal;
  operator_name = "map";
  retry_count = 1;
  tag = tag;
}

abbrev one_error : SideOutputConfig
one_error = record default_side_output_config { error_channel_size = 1 }

abbrev events : List (SideOutputEvent ℕ Bool)
events = event late_event_side_output 1 ∷ event error_side_output 2 ∷ event error_side_output 3 ∷ []

items-emit_all-errors_example :
    items_of (get (emit_all events (create_collector one_error)).outputs error_side_output)
    ≡ (if true then some (take 1 (of_tag error_side_output events)) else none)
items-emit_all-errors_example = items-emit_all-errors one_error events
