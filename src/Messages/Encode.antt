-- ===== src/Messages/Encode.antt =====
-- wire.go: the encoders. The entries of a map stand in the order of their keys.
use mori.Prelude.{ℕ, ◌+◌, ◌-◌}
use mori.Prelude.{Bool, true, Option, none, some}
use mori.Prelude.{[], ◌++◌, ◌==◌, if◌then◌else◌}
use mori.Prelude.{length}
use mori.Prelude.{Bytes}
use mori.Prelude.Int.{ℤ}
use mori.Msgpack.Append.{
  append_bool, append_uint, append_int, append_string, append_bytes, append_map_header,
}
use mori.Messages.Keys.{
  key_seq_no, key_node, key_source_addr, key_source_port, key_source_node, key_target, key_port,
  key_nack, key_payload, key_error, key_from, key_incarnation, key_addr, key_meta, key_vsn,
  key_nodes, key_user_state_len, key_join, key_user_msg_len, key_name, key_state, key_algo, key_buf,
}
use mori.Member.Types.{SuspectMsg, DeadMsg}
use mori.Messages.Types.{
  Ping, IndirectPingReq, AckResp, NackResp, ErrResp, Alive, PushPullHeader, UserMsgHeader,
  PushNodeEntry, Compress, WireMessage, ping_m, indirect_ping_m, ack_resp_m, nack_resp_m,
  err_resp_m, suspect_m, alive_m, dead_m, push_pull_header_m, user_msg_header_m, push_node_state_m,
  compress_m,
}

unfoldable pub append_u : Bytes → ℕ → Bytes
unfolding append_string append_uint
append_u key v = append_string key ++ append_uint v

unfoldable pub append_i : Bytes → ℤ → Bytes
unfolding append_string append_int
append_i key v = append_string key ++ append_int v

unfoldable pub append_s : Bytes → Bytes → Bytes
unfolding append_string
append_s key v = append_string key ++ append_string v

unfoldable pub append_b : Bytes → Option Bytes → Bytes
unfolding append_string append_bytes
append_b key v = append_string key ++ append_bytes v

unfoldable pub append_bool_entry : Bytes → Bool → Bytes
unfolding append_string append_bool
append_bool_entry key v = append_string key ++ append_bool v

-- `len(addr) == 0`, which nil satisfies too.
abbrev pub is_empty : Option Bytes → Bool
is_empty none = true
is_empty (some p) = length p == 0

abbrev pub count_if : Bool → ℕ
count_if b = if b then 1 else 0

unfoldable pub omitted : Option Bytes → ℕ → Bytes → ℕ
omitted addr port node =
    count_if (is_empty addr) + count_if (port == 0) + count_if (length node == 0)

abbrev pub unless_empty : Bool → Bytes → Bytes
unless_empty b entry = if b then [] else entry

unfoldable pub append_source : Option Bytes → ℕ → Bytes → Bytes
unfolding append_b append_s append_u
append_source addr port node =
    unless_empty (is_empty addr) (append_b key_source_addr addr)
    ++ (unless_empty (length node == 0) (append_s key_source_node node)
        ++ unless_empty (port == 0) (append_u key_source_port port))

unfoldable pub append_ping : Ping → Bytes
unfolding append_map_header append_s append_source append_u omitted
append_ping m =
    append_map_header (5 - omitted m.source_addr m.source_port m.source_node)
    ++ (append_s key_node m.node
        ++ (append_u key_seq_no m.seq_no
            ++ (append_source m.source_addr m.source_port m.source_node)))

unfoldable pub append_indirect_ping : IndirectPingReq → Bytes
unfolding append_b append_bool_entry append_map_header append_s append_source append_u omitted
append_indirect_ping m =
    append_map_header (8 - omitted m.source_addr m.source_port m.source_node)
    ++ (append_bool_entry key_nack m.nack
        ++ (append_s key_node m.node
            ++ (append_u key_port m.port
                ++ (append_u key_seq_no m.seq_no
                    ++ (append_source m.source_addr m.source_port m.source_node
                        ++ (append_b key_target m.target))))))

unfoldable pub append_ack : AckResp → Bytes
unfolding append_b append_map_header append_u
append_ack m =
    append_map_header 2 ++ (append_b key_payload m.payload ++ (append_u key_seq_no m.seq_no))

unfoldable pub append_nack : NackResp → Bytes
unfolding append_map_header append_u
append_nack m = append_map_header 1 ++ append_u key_seq_no m.seq_no

unfoldable pub append_err_resp : ErrResp → Bytes
unfolding append_map_header append_s
append_err_resp m = append_map_header 1 ++ append_s key_error m.error_text

unfoldable pub append_suspect : SuspectMsg → Bytes
unfolding append_map_header append_s append_u
append_suspect m =
    append_map_header 3
    ++ (append_s key_from m.from
        ++ (append_u key_incarnation m.incarnation ++ (append_s key_node m.node)))

unfoldable pub append_alive : Alive → Bytes
unfolding append_b append_map_header append_s append_u
append_alive m =
    append_map_header 6
    ++ (append_b key_addr m.addr
        ++ (append_u key_incarnation m.incarnation
            ++ (append_b key_meta m.meta
                ++ (append_s key_node m.node
                    ++ (append_u key_port m.port ++ (append_b key_vsn m.vsn))))))

unfoldable pub append_dead : DeadMsg → Bytes
unfolding append_map_header append_s append_u
append_dead m =
    append_map_header 3
    ++ (append_s key_from m.from
        ++ (append_u key_incarnation m.incarnation ++ (append_s key_node m.node)))

unfoldable pub append_push_pull_header : PushPullHeader → Bytes
unfolding append_bool_entry append_i append_map_header
append_push_pull_header m =
    append_map_header 3
    ++ (append_bool_entry key_join m.join
        ++ (append_i key_nodes m.nodes ++ (append_i key_user_state_len m.user_state_len)))

unfoldable pub append_user_msg_header : UserMsgHeader → Bytes
unfolding append_i append_map_header
append_user_msg_header m = append_map_header 1 ++ append_i key_user_msg_len m.user_msg_len

unfoldable pub append_push_node_state : PushNodeEntry → Bytes
unfolding append_b append_i append_map_header append_s append_u
append_push_node_state m =
    append_map_header 7
    ++ (append_b key_addr m.addr
        ++ (append_u key_incarnation m.incarnation
            ++ (append_b key_meta m.meta
                ++ (append_s key_name m.name
                    ++ (append_u key_port m.port
                        ++ (append_i key_state m.state ++ (append_b key_vsn m.vsn)))))))

unfoldable pub append_compress : Compress → Bytes
unfolding append_b append_map_header append_u
append_compress m = append_map_header 2 ++ (append_u key_algo m.algo ++ (append_b key_buf m.buf))

-- `AppendMsgpack`
unfoldable pub append_msgpack : WireMessage → Bytes
unfolding append_ping append_indirect_ping append_ack append_nack append_err_resp append_suspect
    append_alive append_dead append_push_pull_header append_user_msg_header append_push_node_state
    append_compress
append_msgpack (ping_m m) = append_ping m
append_msgpack (indirect_ping_m m) = append_indirect_ping m
append_msgpack (ack_resp_m m) = append_ack m
append_msgpack (nack_resp_m m) = append_nack m
append_msgpack (err_resp_m m) = append_err_resp m
append_msgpack (suspect_m m) = append_suspect m
append_msgpack (alive_m m) = append_alive m
append_msgpack (dead_m m) = append_dead m
append_msgpack (push_pull_header_m m) = append_push_pull_header m
append_msgpack (user_msg_header_m m) = append_user_msg_header m
append_msgpack (push_node_state_m m) = append_push_node_state m
append_msgpack (compress_m m) = append_compress m
