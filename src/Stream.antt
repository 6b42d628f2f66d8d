-- ===== src/Stream.antt =====
-- pkg/stream/types.go: the values that flow between the parts. `V` is the type of a payload (an
-- interface{}). The packages that read an event's key use it as a string, which it is here.
use gress.Common.{String, ℤ}
use gress.Common.Dict.{Dict}

pub record Event (V : Type 0) : Type 0 where
  pub key : String
  pub value : V
  pub event_time : ℤ
  pub headers : Dict String String
  pub offset : ℤ
  pub partition : ℤ

pub record Watermark : Type 0 where
  pub timestamp : ℤ
  pub partition : ℤ

pub data WindowType : Type 0 where
  tumbling_window sliding_window session_window : WindowType

pub record Window : Type 0 where
  pub start : ℤ
  pub end : ℤ
  pub kind : WindowType
