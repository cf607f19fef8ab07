-- ===== src/Tests/PacketRuns.antt =====
-- Packets at concrete inputs.
use mori.Prelude.{◌+◌, ◌-◌, ◌≡◌, refl}
use mori.Prelude.{◌⊎◌, inr, true, false, ◌&&◌, none, some}
use mori.Prelude.{[], ◌∷◌, ◌++◌, arith}
use mori.Prelude.{length, take, replicate}
use mori.Prelude.{Bytes, same}
use mori.Prelude.Int.{pos}
use mori.Packet.Types.{alive_msg_type, PacketConfig, Arrival, Handoff, probe_handler, PacketState}
use mori.Packet.Acks.{encode, invoke_ack_handler}
use mori.Packet.Receive.{
  no_envelope, port_or_default, handle_command_in, handle_command, handle_checked, ingest_packet,
}
use mori.Packet.Handle.{alive_msg_of, ensure_can_connect, inner_allowed, handler_round, drain}
use mori.Member.Types.{state_alive}
use mori.Member.Run.{Reach}
use mori.Packet.Listening.{QueuesBounded}
use mori.Messages.Types.{AckResp, alive_m}
use mori.Tests.Fixture.{cfg, at, alone, alone-Inv, all_open}
use mori.Tests.CodecRuns.{wire_alive}
use mori.Member.Effects.Edges.{state_at}
use mori.Member.Types.{Node}
use mori.Security.Keyring.{Keyring}
use mori.Security.Payload.{Aead}
use mori.Security.Payload.RoundTrip.{Reopens}
use mori.Packet.Receive.{installed_aeads}
use mori.Packet.Run.{arrive, round, PacketReach, start, then_step}
use mori.Packet.Refinement.{Awake, PacketReach-Reach, PacketReach-queues}
use mori.Packet.Listening.{ingest_packet-Listens}
use mori.Packet.Draining.{Drained, drain-Drained}
use mori.Packet.Safety.{
  PacketReach-alive, handle_command_in-deep, IsAuthentic, ingest_packet-IsAuthentic,
}
use mori.Packet.Send.{
  SendConfig, encryption_version, compressed, destination, checksummed, raw_send_msg_packet,
  write_to_address,
}
use mori.Packet.RoundTrip.{typed, ingest_packet-raw_send_sealed}
use mori.Packet.Piggyback.{piggybacked, parts_found, piggybacked_loses}
use mori.Wire.Compound.{decode_compound_message}
use mori.Prelude.{◌<◌, length, drop, replicate, List}
use mori.Packet.Delivery.{handler_round-alive}
use mori.Packet.AckLaws.{invoke_ack_handler_once}
use mori.Member.Alive.{alive_node}

-- A cipher that only adds a tag of zeros.
abbrev pub tagger : Aead
tagger = record {
  seal_with = λ nonce msg auth. msg ++ replicate 16 0;
  open_with = λ nonce text auth. some (take (length text - 16) text);
}

abbrev pub keys : Keyring Aead
keys = record { keys = (1 ∷ []) ∷ []; aeads = tagger ∷ [] }

abbrev pub settings : PacketConfig
settings = record {
  members = cfg;
  label = b'x' ∷ [];
  skip_inbound_label_check = false;
  keyring = some keys;
  gossip_verify_incoming = true;
  handoff_queue_depth = pos 2;
  protocol_version = 5;
  bind_port = pos 7946;
  has_delegate = true;
  crc32 = λ p. 77;
  lzw = λ p. some p;
  split_host = λ s. some s;
  parse_ip = λ s. some s;
  join_host_port = λ host port. host;
}

abbrev pub sender : SendConfig
sender = record {
  packet = settings;
  require_node_names = false;
  enable_compression = false;
  gossip_verify_outgoing = true;
  lzw_compress = λ p. some p;
}

abbrev arrival : Arrival
arrival = record { from = b'q' ∷ []; timestamp = pos 5; ack_payload = none }

abbrev handoff : Handoff
handoff = record { msg_type = 4; buf = []; from = b'q' ∷ [] }

abbrev awake : PacketState
awake = record {
  members = alone;
  high_priority = handoff ∷ [];
  low_priority = [];
  handoff_pending = false;
  draining = true;
  sequence_num = 0;
  ack_handlers = (7, probe_handler 1) ∷ [];
  waiting_nacks = [];
  advertise_addr = [];
  advertise_port = 7946;
  sent = [];
  channel_sends = [];
  user_msgs = [];
}

abbrev packet : Bytes
packet = 244 ∷ 1 ∷ b'x' ∷ 0 ∷ []

abbrev listened : PacketState
listened = ingest_packet settings arrival packet awake

one_packet : PacketReach settings awake (handler_round settings (at 40) listened)
one_packet =
    then_step (then_step start (arrive arrival packet awake))
      (round (at 40) listened (ingest_packet-Listens arrival packet awake).draining_kept)

PacketReach-Reach_example : Reach cfg alone (handler_round settings (at 40) listened).members
PacketReach-Reach_example = PacketReach-Reach settings one_packet

PacketReach-queues_example :
    QueuesBounded settings (handler_round settings (at 40) listened)
    × Awake (handler_round settings (at 40) listened)
PacketReach-queues_example =
    PacketReach-queues settings (omega arith, omega arith) (inr (inr refl)) one_packet

drain-Drained_example : Drained settings 2 at awake (drain 2 settings at awake)
drain-Drained_example = drain-Drained settings 2 at awake refl (omega arith)

alone_stays : alone.leave ≡ false
unfolding all_open
alone_stays = refl

alone_alive : state_at (b'a' ∷ []) alone ≡ some state_alive
unfolding all_open
alone_alive = refl

PacketReach-alive_example :
    let m = (handler_round settings (at 40) listened).members in
    (m.leave ≡ true) ⊎ (state_at cfg.name m ≡ some state_alive)
PacketReach-alive_example = PacketReach-alive settings alone-Inv alone_stays alone_alive one_packet

handle_command_in-deep_example :
    handle_command_in (3 + 4) settings arrival no_envelope (7 ∷ 1 ∷ 0 ∷ 1 ∷ 0 ∷ []) awake
    ≡ handle_command settings arrival (7 ∷ 1 ∷ 0 ∷ 1 ∷ 0 ∷ []) awake
handle_command_in-deep_example =
    handle_command_in-deep settings arrival 4 (7 ∷ 1 ∷ 0 ∷ 1 ∷ 0 ∷ []) awake

installed : installed_aeads settings ≡ some (tagger ∷ [])
unfolding installed_aeads
installed = refl

ingest_packet-IsAuthentic_example :
    (listened ≡ awake)
    ⊎ ((plain : Bytes) × IsAuthentic settings (tagger ∷ []) packet plain
        × (listened ≡ handle_checked settings arrival plain awake))
ingest_packet-IsAuthentic_example =
    ingest_packet-IsAuthentic settings arrival (tagger ∷ []) installed refl packet awake

abbrev peer : Node
peer = record {
  name = b'b' ∷ [];
  addr = [];
  port = 7946;
  meta = [];
  state = state_alive;
  vsn = record { pmin = 1; pmax = 5; pcur = 5; dmin = 0; dmax = 0; dcur = 0 };
}

abbrev message : Bytes
message = 8 ∷ 1 ∷ 2 ∷ []

reopens :
    Reopens tagger
      (replicate 12 5)
      (checksummed sender (some peer) (compressed sender message))
      (b'x' ∷ [])
      refl
      []
      (encryption_version settings)
unfolding checksummed compressed encryption_version
reopens = record { tagged = refl; reopened = refl; refused = tt }

reachable :
    destination sender (record { addr = []; name = b'b' ∷ [] }) (some peer) alone ≡ some (some peer)
unfolding destination
reachable = refl

named : (same (b'b' ∷ []) [] && false) ≡ false
unfolding same
named = refl

ingest_packet-raw_send_sealed_example :
    (p : Bytes) × (write_to_address sender (
        raw_send_msg_packet sender
          (record { addr = []; name = b'b' ∷ [] })
          (some peer)
          (replicate 12 5)
          alone
          message)
      ≡ some p)
    × ((a : Arrival) (s : PacketState)
        → ingest_packet settings a p s ≡ handle_command settings a (compressed sender message) s)
ingest_packet-raw_send_sealed_example =
    ingest_packet-raw_send_sealed sender settings refl refl (λ p. omega arith)
      (record { addr = []; name = b'b' ∷ [] }) (some peer) alone (replicate 12 5) message
      (some peer) keys tagger [] [] [] refl refl refl installed refl reopens refl (omega arith)
      (typed 8 (1 ∷ 2 ∷ []) (omega arith) (omega arith)) named reachable

can_connect : ensure_can_connect settings (b'q' ∷ []) ≡ true
unfolding ensure_can_connect all_open
can_connect = refl

address_allowed : inner_allowed settings wire_alive.addr ≡ true
unfolding inner_allowed all_open
address_allowed = refl

handler_round-alive_example :
    handler_round settings
      (at 40)
      (handle_command settings arrival (encode alive_msg_type (alive_m wire_alive)) awake)
    ≡ record awake {
      members =
          alive_node cfg
            (at 40)
            (alive_msg_of (record wire_alive { port = port_or_default settings 7946 }))
            false
            alone;
      handoff_pending = true;
    }
handler_round-alive_example =
    handler_round-alive settings arrival (at 40) awake wire_alive
      (
        omega arith,
        omega arith,
        (omega arith, omega arith),
        omega arith,
        tt,
        (omega arith, omega arith),
      )
      refl can_connect address_allowed

abbrev ack : AckResp
ack = record { seq_no = 7; payload = none }

invoke_ack_handler_once_example :
    invoke_ack_handler
      (record { seq_no = 7; payload = some [] })
      (pos 9)
      (invoke_ack_handler ack (pos 8) awake)
    ≡ invoke_ack_handler ack (pos 8) awake
invoke_ack_handler_once_example =
    invoke_ack_handler_once ack (record { seq_no = 7; payload = some [] }) (pos 8) (pos 9) awake
      refl

-- A short message with 255 broadcasts of one byte each.
abbrev crowd : List Bytes
crowd = replicate 255 (8 ∷ 1 ∷ [])

piggybacked_loses_example :
    parts_found (decode_compound_message (drop 1 (piggybacked (0 ∷ 1 ∷ []) crowd)))
    < length ((0 ∷ 1 ∷ []) ∷ crowd)
piggybacked_loses_example = piggybacked_loses (0 ∷ 1 ∷ []) crowd (omega arith)
