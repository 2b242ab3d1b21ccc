-- ===== src/Protocol.antt =====
-- The blocks of events that the control path passes between its stages
-- (include/musicrat/protocol/*.hpp). `F` stands for `double`. A `fixed_vector` is a list; its
-- capacity is an argument of the code that appends to it. Identifiers, kinds and modes are numbers,
-- as they are in the source; the identifier 0 is the invalid one.
use music_ra_t.Common.{ℕ, List, Bool}

-- protocol/control_events.hpp
pub record ControlEvent (F : Type 0) : Type 0 where
  pub source_device_id : ℕ
  pub source_endpoint_id : ℕ
  pub origin_id : ℕ
  pub sample_offset : ℕ
  pub kind : ℕ
  pub value : F
  pub flags : ℕ

-- The events of a block with its time stamp and sequence number. The blocks of the source differ
-- in the type of their events only, but for `DeckControlEventBlock`, which has no flags.
pub record Block (E : Type 0) : Type 0 where
  pub events : List E
  pub timestamp_ns : ℕ
  pub sequence_number : ℕ
  pub flags : ℕ

-- protocol/parameter_events.hpp
pub record ParameterEvent (F : Type 0) : Type 0 where
  pub source_endpoint_id : ℕ
  pub parameter_id : ℕ
  pub sample_offset : ℕ
  pub value : F
  pub origin_id : ℕ
  pub binding_id : ℕ

-- protocol/parameter_state.hpp
pub record ParameterState (F : Type 0) : Type 0 where
  pub parameter_id : ℕ
  pub source_endpoint_id : ℕ
  pub origin_id : ℕ
  pub binding_id : ℕ
  pub value : F

-- protocol/control_mapping.hpp
pub record CompiledControlBinding (F : Type 0) : Type 0 where
  pub binding_id : ℕ
  pub source_device_id : ℕ
  pub source_endpoint_id : ℕ
  pub target_parameter_id : ℕ
  pub source_kind : ℕ
  pub mode : ℕ
  pub curve : ℕ
  pub pickup : ℕ
  pub source_minimum : F
  pub source_maximum : F
  pub target_minimum : F
  pub target_maximum : F
  pub scale : F
  pub offset : F
  pub dead_zone : F
  pub quantization : F
  pub hysteresis : F
  pub pickup_tolerance : F
  pub initial_value : F
  pub invert : Bool

-- protocol/control_feedback.hpp
pub record ControlFeedback (F : Type 0) : Type 0 where
  pub destination_device_id : ℕ
  pub destination_endpoint_id : ℕ
  pub origin_id : ℕ
  pub binding_id : ℕ
  pub value : F

pub record CompiledControlFeedbackBinding : Type 0 where
  pub binding_id : ℕ
  pub target_parameter_id : ℕ
  pub destination_device_id : ℕ
  pub destination_endpoint_id : ℕ
  pub suppress_origin_id : ℕ

-- protocol/deck_control.hpp
pub record DeckControlEvent (F : Type 0) : Type 0 where
  pub type : ℕ
  pub sample_offset : ℕ
  pub value : F
  pub ramp_frames : ℕ
  pub quantization : ℕ

-- protocol/action_mapping.hpp
pub record CompiledActionBinding (F : Type 0) : Type 0 where
  pub binding_id : ℕ
  pub source_device_id : ℕ
  pub source_endpoint_id : ℕ
  pub source_kind : ℕ
  pub action_type : ℕ
  pub quantization : ℕ
  pub source_minimum : F
  pub source_maximum : F
  pub target_minimum : F
  pub target_maximum : F
  pub default_value : F
  pub ramp_frames : ℕ

-- protocol/transport.hpp
pub record TransportBlock (F : Type 0) : Type 0 where
  pub beat_position : F
  pub tempo_bpm : F
  pub sample_rate_hz : ℕ
  pub beats_per_bar : ℕ
  pub state : ℕ
