-- ===== src/Packet/Run.antt =====
-- The runs of the packet side: packets that arrive, the rounds of the packet handler, the timers of
-- probes and relays, and whatever else changes the members, in any order.
use mori.Prelude.{ℕ, ◌≡◌}
use mori.Prelude.{true, false}
use mori.Prelude.{Bytes}
use mori.Prelude.Int.{ℤ}
use mori.Packet.Types.{PacketConfig, Arrival, AckHandler, PacketState}
use mori.Packet.Acks.{set_probe_channels, handler_timeout, nack_timeout}
use mori.Packet.Receive.{ingest_packet}
use mori.Packet.Handle.{with_members, handler_round}
use mori.Member.Types.{Env, Memberlist}
use mori.Member.Run.{Step}

-- `handler_timeout` may be any handler's, and a stopped timer's too: nothing here depends on it.
pub data PacketStep (cfg : PacketConfig) : PacketState → PacketState → Type 0 where
  arrive :
      (at : Arrival) (packet : Bytes) (s : PacketState)
      → PacketStep cfg s (ingest_packet cfg at packet s)
  -- `<-m.handoffCh`
  wake :
      (s : PacketState)
      → s.handoff_pending ≡ true
      → s.draining ≡ false
      → PacketStep cfg s (record s { handoff_pending = false; draining = true })
  round :
      (env : Env) (s : PacketState) → s.draining ≡ true → PacketStep cfg s (handler_round cfg env s)
  probe :
      (seq_no channels : ℕ) (s : PacketState)
      → PacketStep cfg s (set_probe_channels seq_no channels s)
  ack_timeout :
      (seq_no : ℕ) (h : AckHandler) (now : ℤ) (s : PacketState)
      → PacketStep cfg s (handler_timeout seq_no h now s)
  relay_timeout : (relay : ℕ) (s : PacketState) → PacketStep cfg s (nack_timeout relay s)
  elsewhere :
      (s : PacketState) {m : Memberlist}
      → Step cfg.members s.members m
      → PacketStep cfg s (with_members s m)

pub data PacketReach (cfg : PacketConfig) (s : PacketState) : PacketState → Type 0 where
  start : PacketReach cfg s s
  then_step : {t u : PacketState} → PacketReach cfg s t → PacketStep cfg t u → PacketReach cfg s u
