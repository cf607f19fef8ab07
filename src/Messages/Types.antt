-- ===== src/Messages/Types.antt =====
-- wire.go: the messages. A byte slice that may be nil is an option; `suspect` and `dead` are the
-- records that the state machine reads.
use mori.Prelude.{ℕ}
use mori.Prelude.{Bool, Option}
use mori.Prelude.{Bytes}
use mori.Prelude.Int.{ℤ}
use mori.Member.Types.{SuspectMsg, DeadMsg}

pub record Ping : Type 0 where
  pub seq_no : ℕ
  pub node : Bytes
  pub source_addr : Option Bytes
  pub source_port : ℕ
  pub source_node : Bytes

pub record IndirectPingReq : Type 0 where
  pub seq_no : ℕ
  pub target : Option Bytes
  pub port : ℕ
  pub node : Bytes
  pub nack : Bool
  pub source_addr : Option Bytes
  pub source_port : ℕ
  pub source_node : Bytes

pub record AckResp : Type 0 where
  pub seq_no : ℕ
  pub payload : Option Bytes

pub record NackResp : Type 0 where
  pub seq_no : ℕ

pub record ErrResp : Type 0 where
  pub error_text : Bytes

pub record Alive : Type 0 where
  pub incarnation : ℕ
  pub node : Bytes
  pub addr : Option Bytes
  pub port : ℕ
  pub meta : Option Bytes
  pub vsn : Option Bytes

pub record PushPullHeader : Type 0 where
  pub nodes : ℤ
  pub user_state_len : ℤ
  pub join : Bool

pub record UserMsgHeader : Type 0 where
  pub user_msg_len : ℤ

pub record PushNodeEntry : Type 0 where
  pub name : Bytes
  pub addr : Option Bytes
  pub port : ℕ
  pub meta : Option Bytes
  pub incarnation : ℕ
  pub state : ℤ
  pub vsn : Option Bytes

pub record Compress : Type 0 where
  pub algo : ℕ
  pub buf : Option Bytes

-- The interface `Message`, by the type of the value.
pub data WireMessage : Type 0 where
  ping_m : Ping → WireMessage
  indirect_ping_m : IndirectPingReq → WireMessage
  ack_resp_m : AckResp → WireMessage
  nack_resp_m : NackResp → WireMessage
  err_resp_m : ErrResp → WireMessage
  suspect_m : SuspectMsg → WireMessage
  alive_m : Alive → WireMessage
  dead_m : DeadMsg → WireMessage
  push_pull_header_m : PushPullHeader → WireMessage
  user_msg_header_m : UserMsgHeader → WireMessage
  push_node_state_m : PushNodeEntry → WireMessage
  compress_m : Compress → WireMessage
