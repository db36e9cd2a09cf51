-- ===== src/Shared.antt =====
-- examples/shared/message.go: the messages of the example host and its plugins. A Go string is its
-- bytes.
pub mod Msgp
pub mod Encode
pub mod Write
pub mod Decode
pub mod Small
pub mod Layout
pub mod WriteAlike
pub mod Sizes
pub mod Reading
pub mod RoundTrip
pub mod Unmarshal
pub mod MsgpackCodec
use plugo.Prelude.{ℕ, List}

-- Go's `int`; `negsuc n` is -(n + 1).
pub data ℤ : Type 0 where
  pos : ℕ → ℤ
  negsuc : ℕ → ℤ

pub record TaskInfo : Type 0 where
  pub step : ℤ
  pub options : List ℕ

pub record RequestPayload : Type 0 where
  pub task_name : List ℕ
  pub task_detail : TaskInfo

pub record ExtraResult : Type 0 where
  pub node_id : List ℕ
  pub status : List ℕ

pub record TaskResult : Type 0 where
  pub message : List ℕ
  pub extra : ExtraResult

pub record ResponsePayload : Type 0 where
  pub code : ℤ
  pub result : TaskResult

pub record IpcReqMessage : Type 0 where
  pub id : ℕ
  pub command : List ℕ
  pub payload : RequestPayload

pub record IpcRespMessage : Type 0 where
  pub id : ℕ
  pub command : List ℕ
  pub payload : ResponsePayload
