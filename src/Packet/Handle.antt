-- ===== src/Packet/Handle.antt =====
-- net.go: the packet handler, which takes the queued messages to the state machine.
use mori.Prelude.{ℕ, zero, suc}
use mori.Prelude.{Bool, true, false, not, Option, none, some}
use mori.Prelude.{List, [], ◌∷◌, ◌==◌, if◌then◌else◌}
use mori.Prelude.{Bytes, same}
use mori.Packet.Types.{
  suspect_msg_type, alive_msg_type, dead_msg_type, user_msg, PacketConfig, Handoff, PacketState,
}
use mori.Packet.Acks.{decode}
use mori.Messages.Decode.{decode_suspect, decode_alive, decode_dead}
use mori.Messages.Types.{Alive}
use mori.Packet.Receive.{port_or_default}
use mori.Member.Types.{AliveMsg, Env, Memberlist}
use mori.Member.Nodes.{ip_must_be_checked, ip_allowed}
use mori.Member.Alive.{alive_node}
use mori.Member.Suspect.{suspect_node}
use mori.Member.Dead.{dead_node}

-- From the front of the priorities, and there from the back of the queue.
abbrev pub next_of : List Handoff → List Handoff → PacketState → Option (Handoff × PacketState)
next_of (msg ∷ older) low s = some (msg, record s { high_priority = older })
next_of [] (msg ∷ older) s = some (msg, record s { low_priority = older })
next_of [] [] s = none

unfoldable pub get_next_message : PacketState → Option (Handoff × PacketState)
get_next_message s = next_of s.high_priority s.low_priority s

-- A byte slice of a message, as the state machine reads it: nil is empty.
abbrev pub bytes_or_empty : Option Bytes → Bytes
bytes_or_empty none = []
bytes_or_empty (some p) = p

abbrev pub alive_msg_of : Alive → AliveMsg
alive_msg_of a = record {
  incarnation = a.incarnation;
  node = a.node;
  addr = bytes_or_empty a.addr;
  port = a.port;
  meta = bytes_or_empty a.meta;
  vsn = bytes_or_empty a.vsn;
}

-- True where `ensureCanConnect` returns nil.
unfoldable pub ensure_can_connect : PacketConfig → Bytes → Bool
unfolding ip_must_be_checked ip_allowed same
ensure_can_connect cfg from =
    if not (ip_must_be_checked cfg.members)
    then true
    else if same from (112 ∷ 105 ∷ 112 ∷ 101 ∷ [])
    then true
    else elim (cfg.split_host from) [
      | none ↦ false
      | some host ↦ elim (cfg.parse_ip host) [ none ↦ false | some ip ↦ ip_allowed cfg.members ip ]
    ]

-- The check of the address in the message; a nil address passes here.
unfoldable pub inner_allowed : PacketConfig → Option Bytes → Bool
unfolding ip_must_be_checked ip_allowed
inner_allowed cfg addr =
    if ip_must_be_checked cfg.members
    then elim addr [ none ↦ true | some ip ↦ ip_allowed cfg.members ip ]
    else true

abbrev pub with_members : PacketState → Memberlist → PacketState
with_members s m = record s { members = m }

unfoldable pub accept_alive : PacketConfig → Env → Alive → PacketState → PacketState
unfolding inner_allowed port_or_default alive_node
accept_alive cfg env live s =
    let named = record live { port = port_or_default cfg live.port } in
    if not (inner_allowed cfg live.addr)
    then s
    else with_members s (alive_node cfg.members env (alive_msg_of named) false s.members)

unfoldable pub handle_alive : PacketConfig → Env → Bytes → Bytes → PacketState → PacketState
unfolding ensure_can_connect decode decode_alive accept_alive
handle_alive cfg env buf from s =
    if not (ensure_can_connect cfg from) then s else elim (decode (decode_alive false) buf) [
      | none ↦ s
      | some live ↦ accept_alive cfg env live s
    ]

unfoldable pub handle_suspect : PacketConfig → Env → Bytes → PacketState → PacketState
unfolding decode decode_suspect suspect_node
handle_suspect cfg env buf s = elim (decode (decode_suspect false) buf) [
  | none ↦ s
  | some sus ↦ with_members s (suspect_node cfg.members env sus s.members)
]

unfoldable pub handle_dead : PacketConfig → Env → Bytes → PacketState → PacketState
unfolding decode decode_dead dead_node
handle_dead cfg env buf s = elim (decode (decode_dead false) buf) [
  | none ↦ s
  | some d ↦ with_members s (dead_node cfg.members env d s.members)
]

unfoldable pub handle_user : PacketConfig → Bytes → PacketState → PacketState
handle_user cfg buf s = if cfg.has_delegate then record s { user_msgs = buf ∷ s.user_msgs } else s

unfoldable pub handle_queued : PacketConfig → Env → Handoff → PacketState → PacketState
unfolding handle_suspect handle_alive handle_dead handle_user
handle_queued cfg env h s =
    if h.msg_type == suspect_msg_type
    then handle_suspect cfg env h.buf s
    else if h.msg_type == alive_msg_type
    then handle_alive cfg env h.buf h.from s
    else if h.msg_type == dead_msg_type
    then handle_dead cfg env h.buf s
    else if h.msg_type == user_msg
    then handle_user cfg h.buf s
    else s

unfoldable pub with_next :
    PacketConfig → Env → PacketState → Option (Handoff × PacketState) → PacketState
unfolding handle_queued
with_next cfg env s none = record s { draining = false }
with_next cfg env s (some (msg, taken)) = handle_queued cfg env msg taken

-- One round of the inner loop of `packetHandler`.
unfoldable pub handler_round : PacketConfig → Env → PacketState → PacketState
unfolding get_next_message with_next
handler_round cfg env s = with_next cfg env s (get_next_message s)

-- The inner loop; each round takes a message off, so their number is enough fuel.
unfoldable pub drain : ℕ → PacketConfig → (ℕ → Env) → PacketState → PacketState
unfolding handler_round
drain zero cfg env s = s
drain (suc fuel) cfg env s =
    let rest = drain fuel cfg env (handler_round cfg (env fuel) s) in if s.draining then rest else s
