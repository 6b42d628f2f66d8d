-- ===== src/Errors/SideOutput.antt =====
-- pkg/errors/side_output.go: SideOutputCollector, whose channels nobody reads in the meantime. Each tag
-- has a channel of its own. The metadata of an event, which no code reads, is left out.
pub mod Emitted
mod Tests
use gress.Common.{
  ℕ, suc, String, Bool, true, false, ◌&&◌, Option, none, some, List, [], ◌∷◌, ◌++◌, if◌then◌else◌,
  ℤ, string_key,
}
use gress.Common.Dict.{Dict, get, put, remove}
use gress.Common.Channel.{Channel, new_channel, offer}
use gress.Errors.Classification.{ErrorCategory}

-- SideOutputTag and its constants
abbrev pub error_side_output : String
error_side_output = "errors"

abbrev pub late_event_side_output : String
late_event_side_output = "late-events"

abbrev pub filtered_side_output : String
filtered_side_output = "filtered"

pub record SideOutputEvent (V Err : Type 0) : Type 0 where
  pub key : String
  pub value : V
  pub event_time : ℤ
  pub headers : Dict String String
  pub offset : ℤ
  pub partition : ℤ
  pub error : Err
  pub error_category : ErrorCategory
  pub operator_name : String
  pub retry_count : ℕ
  pub tag : String

pub record SideOutputCollector (V Err : Type 0) : Type 0 where
  pub outputs : Dict String (Channel (SideOutputEvent V Err))
  pub enabled : Bool

module _ {V Err : Type 0} where
  abbrev pub new_collector : SideOutputCollector V Err
  new_collector = record { outputs = []; enabled = true }

  -- RegisterSideOutput
  pub register :
      String
      → Channel (SideOutputEvent V Err)
      → SideOutputCollector V Err
      → SideOutputCollector V Err
  register tag ch c = record c { outputs = put c.outputs tag ch }

  -- UnregisterSideOutput
  pub unregister : String → SideOutputCollector V Err → SideOutputCollector V Err
  unregister tag c = record c { outputs = remove c.outputs tag }

  abbrev pub sent :
      SideOutputEvent V Err
      → Option (Channel (SideOutputEvent V Err))
      → SideOutputCollector V Err
      → SideOutputCollector V Err
  sent event none c = c
  sent event (some ch) c = record c { outputs = put c.outputs event.tag (offer event ch) }

  -- Emit. `done` says that the context is cancelled and that the select takes that case.
  unfoldable pub emit :
      Bool → SideOutputEvent V Err → SideOutputCollector V Err → SideOutputCollector V Err
  emit done event c =
      if c.enabled && (if done then false else true)
      then sent event (get c.outputs event.tag) c
      else c

  -- Enable, Disable and Close
  pub enable : SideOutputCollector V Err → SideOutputCollector V Err
  enable c = record c { enabled = true }

  pub disable : SideOutputCollector V Err → SideOutputCollector V Err
  disable c = record c { enabled = false }

  pub close : SideOutputCollector V Err → SideOutputCollector V Err
  close c = record c { outputs = []; enabled = false }

pub record SideOutputConfig : Type 0 where
  pub enable_error_side_output : Bool
  pub enable_late_side_output : Bool
  pub enable_filtered_side_output : Bool
  pub error_channel_size : ℕ
  pub late_channel_size : ℕ
  pub filtered_channel_size : ℕ

abbrev pub default_side_output_config : SideOutputConfig
default_side_output_config = record {
  enable_error_side_output = true;
  enable_late_side_output = false;
  enable_filtered_side_output = false;
  error_channel_size = 1000;
  late_channel_size = 1000;
  filtered_channel_size = 1000;
}

module _ {V Err : Type 0} where
  abbrev pub register_if : Bool → String → ℕ → SideOutputCollector V Err → SideOutputCollector V Err
  register_if enabled tag size c = if enabled then register tag (new_channel size) c else c

  -- CreateSideOutputCollector
  pub create_collector : SideOutputConfig → SideOutputCollector V Err
  unfolding register new_channel
  create_collector config =
      register_if config.enable_filtered_side_output filtered_side_output
        config.filtered_channel_size
        (register_if config.enable_late_side_output late_event_side_output config.late_channel_size
          (register_if config.enable_error_side_output error_side_output config.error_channel_size
            new_collector))
