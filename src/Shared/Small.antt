-- ===== src/Shared/Small.antt =====
-- The messages whose texts and numbers fit MessagePack's formats: a text is shorter than 2^32 bytes, an
-- `int` is one of 64 bits.
use plugo.Prelude.{◌<◌, ◌^◌, length}
use plugo.Shared.{
  TaskInfo, RequestPayload, ExtraResult, TaskResult, ResponsePayload, IpcReqMessage, IpcRespMessage,
}
use plugo.Shared.Msgp.{IsInt64}

pub record IsSmallExtra (z : ExtraResult) : Type 0 where
  pub node_id_fits : length z.node_id < 2 ^ 32
  pub status_fits : length z.status < 2 ^ 32

pub record IsSmallInfo (z : TaskInfo) : Type 0 where
  pub step_fits : IsInt64 z.step
  pub options_fit : length z.options < 2 ^ 32

pub record IsSmallResult (z : TaskResult) : Type 0 where
  pub message_fits : length z.message < 2 ^ 32
  pub small_extra : IsSmallExtra z.extra

pub record IsSmallRequest (z : RequestPayload) : Type 0 where
  pub task_name_fits : length z.task_name < 2 ^ 32
  pub small_detail : IsSmallInfo z.task_detail

pub record IsSmallResponse (z : ResponsePayload) : Type 0 where
  pub code_fits : IsInt64 z.code
  pub small_result : IsSmallResult z.result

pub record IsSmallReqMessage (z : IpcReqMessage) : Type 0 where
  pub id_fits : z.id < 2 ^ 32
  pub command_fits : length z.command < 2 ^ 32
  pub small_payload : IsSmallRequest z.payload

pub record IsSmallRespMessage (z : IpcRespMessage) : Type 0 where
  pub id_fits : z.id < 2 ^ 32
  pub command_fits : length z.command < 2 ^ 32
  pub small_payload : IsSmallResponse z.payload
