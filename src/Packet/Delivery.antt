-- ===== src/Packet/Delivery.antt =====
-- The delivery of messages: from the bytes of an encoded message to what the state machine does with it.
use mori.Prelude.{◌≡◌, sym, ap, ◌∙◌}
use mori.Prelude.{true, false, not, Option, none, some}
use mori.Prelude.{List, [], ◌∷◌, ◌++◌, append-nil, if◌then◌else◌}
use mori.Prelude.{Bytes}
use mori.Packet.Types.{
  suspect_msg_type, alive_msg_type, dead_msg_type, PacketConfig, Arrival, Handoff, PacketState,
}
use mori.Packet.Acks.{encode, decoded_value, decode}
use mori.Packet.Receive.{
  port_or_default, queue_full, push_back, queue_message, handle_leaf, dispatch, handle_command_in,
  handle_command,
}
use mori.Packet.Handle.{
  with_next, get_next_message, alive_msg_of, ensure_can_connect, inner_allowed, with_members,
  accept_alive, handle_alive, handle_suspect, handle_dead, handle_queued, handler_round,
}
use mori.Messages.Decode.{decode_suspect, decode_alive, decode_dead}
use mori.Messages.Encode.{append_suspect, append_alive, append_dead, append_msgpack}
use mori.Member.Types.{SuspectMsg, DeadMsg}
use mori.Messages.Types.{Alive, suspect_m, alive_m, dead_m}
use mori.Msgpack.Reader.{ok, Reader}
use mori.Messages.RoundTrip.{
  IsAlive, IsSuspect, IsDead, decode_alive-append_alive, decode_suspect-append_suspect,
  decode_dead-append_dead,
}
use mori.Member.Types.{SuspectMsg, DeadMsg, Env}
use mori.Member.Alive.{alive_node}
use mori.Member.Suspect.{suspect_node}
use mori.Member.Dead.{dead_node}

-- A message with nothing behind it.
whole :
    {M : Type 0} (dec : Reader M) (m : M) (buf : Bytes)
    → dec (buf ++ []) ≡ ok m []
    → decode dec buf ≡ some m
unfolding decode
whole dec m buf e = ap decoded_value (ap dec (sym (append-nil buf)) ∙ e)

queue_with_room :
    (cfg : PacketConfig) (h : Handoff) (q : List Handoff)
    → queue_full cfg q ≡ false
    → push_back cfg h q ≡ h ∷ q
queue_with_room cfg h q room = ap (λ b. if b then q else h ∷ q) room

module _ (cfg : PacketConfig) (at : Arrival) (env : Env) (s : PacketState) where
  -- The message is taken next, before all that waited.
  taken_next :
      (buf : Bytes)
      → queue_full cfg s.high_priority ≡ false
      → handler_round cfg env (handle_command cfg at (alive_msg_type ∷ buf) s)
        ≡ handle_queued cfg env
            (record { msg_type = alive_msg_type; buf = buf; from = at.from })
            (record s { handoff_pending = true })
  unfolding handle_command handle_command_in dispatch handle_leaf queue_message handler_round
      get_next_message with_next
  taken_next buf room =
      ap (λ q. handler_round cfg env (record s { high_priority = q; handoff_pending = true }))
        (queue_with_room cfg (record { msg_type = alive_msg_type; buf = buf; from = at.from })
          s.high_priority room)

  accepted :
      (a : Alive) (buf : Bytes) (t : PacketState)
      → decode (decode_alive false) buf ≡ some a
      → ensure_can_connect cfg at.from ≡ true
      → inner_allowed cfg a.addr ≡ true
      → handle_alive cfg env buf at.from t
        ≡ with_members t (
            alive_node cfg.members env
              (alive_msg_of (record a { port = port_or_default cfg a.port }))
              false
              t.members)
  unfolding handle_alive accept_alive
  accepted a buf t read from inner =
      let after : Option Alive → PacketState =
        λ o. elim o as (λ _. PacketState) [ none ↦ t | some live ↦ accept_alive cfg env live t ] in
      ap (λ b. if not b then t else after (decode (decode_alive false) buf)) from
      ∙ ap after read
      ∙ ap
          (λ b.
            if not b
            then t
            else with_members t (
                alive_node cfg.members env
                  (alive_msg_of (record a { port = port_or_default cfg a.port })) false t.members))
          inner

  -- An encoded alive message that is allowed in, while its queue has room, is the next that the
  -- packet handler takes, before all that waited, and the state machine gets it as it was sent but
  -- for the port: the configured one stands in for a missing port and, under protocol versions
  -- below 2, for every port. Nothing else changes, and a notification is pending. The message must
  -- keep to the ranges of its fields.
  pub handler_round-alive :
      (a : Alive)
      → IsAlive a
      → queue_full cfg s.high_priority ≡ false
      → ensure_can_connect cfg at.from ≡ true
      → inner_allowed cfg a.addr ≡ true
      → handler_round cfg env (handle_command cfg at (encode alive_msg_type (alive_m a)) s)
        ≡ record s {
          members =
              alive_node cfg.members env
                (alive_msg_of (record a { port = port_or_default cfg a.port }))
                false
                s.members;
          handoff_pending = true;
        }
  unfolding encode append_msgpack handle_queued
  handler_round-alive a h room from inner =
      taken_next (append_alive a) room
      ∙ accepted a (append_alive a) (record s { handoff_pending = true })
          (whole (decode_alive false) a (append_alive a) (decode_alive-append_alive false a [] h))
          from inner

  -- Where no alive message waits, a suspect message is taken next, before all that waited of its priority,
  -- and the state machine gets it as it was sent.
  pub handler_round-suspect :
      (sus : SuspectMsg)
      → IsSuspect sus
      → queue_full cfg s.low_priority ≡ false
      → handler_round cfg env (
          handle_command cfg at
            (encode suspect_msg_type (suspect_m sus))
            (record s { high_priority = [] }))
        ≡ record s {
          members = suspect_node cfg.members env sus s.members;
          high_priority = [];
          handoff_pending = true;
        }
  unfolding handle_command handle_command_in dispatch handle_leaf queue_message handler_round
      get_next_message with_next handle_queued handle_suspect encode append_msgpack
  handler_round-suspect sus h room =
      let buf : Bytes = append_suspect sus in
      let none_alive : PacketState = record s { high_priority = []; handoff_pending = true } in
      let after : Option SuspectMsg → PacketState = λ o. elim o as (λ _. PacketState) [
        | none ↦ none_alive
        | some sus ↦ with_members none_alive (suspect_node cfg.members env sus s.members)
      ] in
      ap (λ q. handler_round cfg env (record none_alive { low_priority = q }))
        (queue_with_room cfg (record { msg_type = suspect_msg_type; buf = buf; from = at.from })
          s.low_priority room)
      ∙ ap after
          (whole (decode_suspect false) sus buf (decode_suspect-append_suspect false sus [] h))

  -- Where no alive message waits, a dead message is taken next, before all that waited of its priority,
  -- and the state machine gets it as it was sent.
  pub handler_round-dead :
      (d : DeadMsg)
      → IsDead d
      → queue_full cfg s.low_priority ≡ false
      → handler_round cfg env (
          handle_command cfg at (encode dead_msg_type (dead_m d)) (record s { high_priority = [] }))
        ≡ record s {
          members = dead_node cfg.members env d s.members;
          high_priority = [];
          handoff_pending = true;
        }
  unfolding handle_command handle_command_in dispatch handle_leaf queue_message handler_round
      get_next_message with_next handle_queued handle_dead encode append_msgpack
  handler_round-dead d h room =
      let buf : Bytes = append_dead d in
      let none_alive : PacketState = record s { high_priority = []; handoff_pending = true } in
      let after : Option DeadMsg → PacketState = λ o. elim o as (λ _. PacketState) [
        | none ↦ none_alive
        | some d ↦ with_members none_alive (dead_node cfg.members env d s.members)
      ] in
      ap (λ q. handler_round cfg env (record none_alive { low_priority = q }))
        (queue_with_room cfg (record { msg_type = dead_msg_type; buf = buf; from = at.from })
          s.low_priority room)
      ∙ ap after (whole (decode_dead false) d buf (decode_dead-append_dead false d [] h))
