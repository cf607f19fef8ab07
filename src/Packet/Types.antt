-- ===== src/Packet/Types.antt =====
-- net.go and state.go: what the packet side of a memberlist keeps, and what it is given.
use mori.Prelude.{ℕ}
use mori.Prelude.{Bool, Option}
use mori.Prelude.{List}
use mori.Prelude.{Bytes}
use mori.Prelude.Int.{ℤ}
use mori.Member.Types.{Config, Memberlist}
use mori.Security.Keyring.{Keyring}
use mori.Security.Payload.{Aead}

-- `messageType`
abbrev pub ping_msg : ℕ
ping_msg = 0

abbrev pub indirect_ping_msg : ℕ
indirect_ping_msg = 1

abbrev pub ack_resp_msg : ℕ
ack_resp_msg = 2

abbrev pub suspect_msg_type : ℕ
suspect_msg_type = 3

abbrev pub alive_msg_type : ℕ
alive_msg_type = 4

abbrev pub dead_msg_type : ℕ
dead_msg_type = 5

abbrev pub compound_msg_type : ℕ
compound_msg_type = 7

abbrev pub user_msg : ℕ
user_msg = 8

abbrev pub compress_msg : ℕ
compress_msg = 9

abbrev pub nack_resp_msg : ℕ
nack_resp_msg = 11

abbrev pub has_crc_msg : ℕ
has_crc_msg = 12

-- `maxPacketDecompressedBytes`
abbrev pub max_packet_decompressed_bytes : ℕ
max_packet_decompressed_bytes = 1048576

-- The settings of the packet side. `keyring` is none where it is nil. `crc32` is
-- `crc32.ChecksumIEEE`; `lzw` is all that an LZW reader delivers, or none where it fails;
-- `split_host` is the host of `net.SplitHostPort`, `parse_ip` is `net.ParseIP`, and
-- `join_host_port` is `joinHostPort`.
pub record PacketConfig : Type 0 where
  pub members : Config
  pub label : Bytes
  pub skip_inbound_label_check : Bool
  pub keyring : Option (Keyring Aead)
  pub gossip_verify_incoming : Bool
  pub handoff_queue_depth : ℤ
  pub protocol_version : ℕ
  pub bind_port : ℤ
  pub has_delegate : Bool
  pub crc32 : Bytes → ℕ
  pub lzw : Bytes → Option Bytes
  pub split_host : Bytes → Option Bytes
  pub parse_ip : Bytes → Option Bytes
  pub join_host_port : Bytes → ℕ → Bytes

-- What one packet meets: the text of the sender's address, when it came, and what the ping delegate
-- answers, if there is one, after so many packets have been sent.
pub record Arrival : Type 0 where
  pub from : Bytes
  pub timestamp : ℤ
  pub ack_payload : Option (ℕ → Option Bytes)

pub record Address : Type 0 where
  pub addr : Bytes
  pub name : Bytes

-- `msgHandoff`; of the sender its text.
pub record Handoff : Type 0 where
  pub msg_type : ℕ
  pub buf : Bytes
  pub from : Bytes

-- The functions of an `ackHandler`: those of `setProbeChannels`, for the channels that `probe` stands
-- for, or the relay of an indirect ping, which has no function for nacks.
pub data AckHandler : Type 0 where
  probe_handler : ℕ → AckHandler
  relay_handler : ℕ → Address → AckHandler

-- What a handler tries to send on its channels: an `ackMessage` or a nack.
pub data ChannelSend : Type 0 where
  ack_send : ℕ → Bool → Option Bytes → ℤ → ChannelSend
  nack_send : ℕ → ChannelSend

-- A call of `sendMsg`, and a goroutine that sends a nack unless it is cancelled.
pub record Outgoing : Type 0 where
  pub to : Address
  pub msg : Bytes

pub record WaitingNack : Type 0 where
  pub relay : ℕ  -- the sequence number of the relayed ping
  pub seq_no : ℕ
  pub to : Address

-- A queue lists its messages from the back. `handoff_pending` tells whether `handoffCh` is full, and
-- `draining` whether the packet handler is in its inner loop. `sent`, `channel_sends` and
-- `user_msgs` are the calls so far, the last first.
pub record PacketState : Type 0 where
  pub members : Memberlist
  pub high_priority : List Handoff
  pub low_priority : List Handoff
  pub handoff_pending : Bool
  pub draining : Bool
  pub sequence_num : ℕ  -- uint32
  pub ack_handlers : List (ℕ × AckHandler)
  pub waiting_nacks : List WaitingNack
  pub advertise_addr : Bytes
  pub advertise_port : ℕ
  pub sent : List Outgoing
  pub channel_sends : List ChannelSend
  pub user_msgs : List Bytes
