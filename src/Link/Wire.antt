-- ===== src/Link/Wire.antt =====
-- The messages of proto/rook/link/v1 that the converters of link/convert.go fill, as gen/ declares
-- them, and the protobuf timestamp type as an interface.
use rook_host.Base.{ℕ, ◌≡◌, Option, Bool, List}
use rook_host.Base.Bytes.{Bytes}
use rook_host.Base.Int.{ℤ}
use rook_host.Base.Time.{Time}

-- google.protobuf.Timestamp
pub record Timestamp : Type 0 where
  pub seconds : ℕ
  pub nanos : ℕ

-- timestamppb.New and Timestamp.AsTime: a time survives the two.
pub record Timestamppb : Type 0 where
  pub new : Time → Timestamp
  pub as_time : Timestamp → Time
  pub as_time-new : (t : Time) → as_time (new t) ≡ t

-- Open enums: a value that this build does not know keeps its number.
pub data AgentState : Type 0 where
  unspecified working needs_input quiet : AgentState
  unknown : ℕ → AgentState

pub data CommandKind : Type 0 where
  unspecified compact resume spawn say : CommandKind
  unknown : ℕ → CommandKind

pub data DispositionCode : Type 0 where
  unspecified delivered duplicate dropped : DispositionCode

pub record AgentDigestMsg : Type 0 where
  pub headline : Bytes
  pub bullets : List Bytes
  pub at : Option Timestamp

pub record AgentMsg : Type 0 where
  pub id : Bytes
  pub state : AgentState
  pub title : Bytes
  pub ask : Bytes
  pub ask_id : Bytes
  pub model : Bytes
  pub cost_usd : ℕ
  pub ctx_pct : ℤ
  pub digest : Option AgentDigestMsg
  pub last_event : Option Timestamp
  pub now : Bytes
  pub now_at : Option Timestamp
  pub attached : Bool

pub record WorkspaceMsg : Type 0 where
  pub name : Bytes
  pub branch : Bytes
  pub attention : ℤ
  pub agents : List AgentMsg

pub record UsageMsg : Type 0 where
  pub mode : Bytes
  pub session_pct : ℤ
  pub session_resets : Bytes
  pub week_all_pct : ℤ
  pub week_all_resets : Bytes
  pub week_model_name : Bytes
  pub week_model_pct : ℤ
  pub week_model_resets : Bytes
  pub at : Option Timestamp
  pub agent_today_usd : ℕ
  pub agent_week_usd : ℕ

pub record StatusMsg : Type 0 where
  pub hostname : Bytes
  pub rook_version : Bytes
  pub workspaces : List WorkspaceMsg
  pub at : Option Timestamp
  pub host_id : Bytes
  pub usage : Option UsageMsg

pub record StyleRunMsg : Type 0 where
  pub start : ℕ
  pub len : ℕ
  pub fg : ℕ
  pub bg : ℕ
  pub attrs : ℕ

pub record PaneRowMsg : Type 0 where
  pub text : Bytes
  pub runs : List StyleRunMsg

pub record PaneFrameMsg : Type 0 where
  pub cols : ℕ
  pub rows : ℕ
  pub cursor_x : ℕ
  pub cursor_y : ℕ
  pub cursor_visible : Bool
  pub lines : List PaneRowMsg

pub record DigestMsg : Type 0 where
  pub id : Bytes
  pub session_id : Bytes
  pub headline : Bytes
  pub bullets : List Bytes
  pub full_text : Bytes
  pub prompt : Bytes
  pub reply : Bytes
  pub reply_state : Bytes
  pub at : Option Timestamp
  pub model : Bytes
  pub cost_usd : ℕ
