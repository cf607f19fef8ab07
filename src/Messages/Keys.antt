-- ===== src/Messages/Keys.antt =====
-- wire.go: the names of the fields, the keys of an encoded message.
use mori.Prelude.{[], ◌∷◌}
use mori.Prelude.{Bytes}

-- "SeqNo"
abbrev pub key_seq_no : Bytes
key_seq_no = 83 ∷ 101 ∷ 113 ∷ 78 ∷ 111 ∷ []

-- "Node"
abbrev pub key_node : Bytes
key_node = 78 ∷ 111 ∷ 100 ∷ 101 ∷ []

-- "SourceAddr"
abbrev pub key_source_addr : Bytes
key_source_addr = 83 ∷ 111 ∷ 117 ∷ 114 ∷ 99 ∷ 101 ∷ 65 ∷ 100 ∷ 100 ∷ 114 ∷ []

-- "SourcePort"
abbrev pub key_source_port : Bytes
key_source_port = 83 ∷ 111 ∷ 117 ∷ 114 ∷ 99 ∷ 101 ∷ 80 ∷ 111 ∷ 114 ∷ 116 ∷ []

-- "SourceNode"
abbrev pub key_source_node : Bytes
key_source_node = 83 ∷ 111 ∷ 117 ∷ 114 ∷ 99 ∷ 101 ∷ 78 ∷ 111 ∷ 100 ∷ 101 ∷ []

-- "Target"
abbrev pub key_target : Bytes
key_target = 84 ∷ 97 ∷ 114 ∷ 103 ∷ 101 ∷ 116 ∷ []

-- "Port"
abbrev pub key_port : Bytes
key_port = 80 ∷ 111 ∷ 114 ∷ 116 ∷ []

-- "Nack"
abbrev pub key_nack : Bytes
key_nack = 78 ∷ 97 ∷ 99 ∷ 107 ∷ []

-- "Payload"
abbrev pub key_payload : Bytes
key_payload = 80 ∷ 97 ∷ 121 ∷ 108 ∷ 111 ∷ 97 ∷ 100 ∷ []

-- "Error"
abbrev pub key_error : Bytes
key_error = 69 ∷ 114 ∷ 114 ∷ 111 ∷ 114 ∷ []

-- "From"
abbrev pub key_from : Bytes
key_from = 70 ∷ 114 ∷ 111 ∷ 109 ∷ []

-- "Incarnation"
abbrev pub key_incarnation : Bytes
key_incarnation = 73 ∷ 110 ∷ 99 ∷ 97 ∷ 114 ∷ 110 ∷ 97 ∷ 116 ∷ 105 ∷ 111 ∷ 110 ∷ []

-- "Addr"
abbrev pub key_addr : Bytes
key_addr = 65 ∷ 100 ∷ 100 ∷ 114 ∷ []

-- "Meta"
abbrev pub key_meta : Bytes
key_meta = 77 ∷ 101 ∷ 116 ∷ 97 ∷ []

-- "Vsn"
abbrev pub key_vsn : Bytes
key_vsn = 86 ∷ 115 ∷ 110 ∷ []

-- "Nodes"
abbrev pub key_nodes : Bytes
key_nodes = 78 ∷ 111 ∷ 100 ∷ 101 ∷ 115 ∷ []

-- "UserStateLen"
abbrev pub key_user_state_len : Bytes
key_user_state_len = 85 ∷ 115 ∷ 101 ∷ 114 ∷ 83 ∷ 116 ∷ 97 ∷ 116 ∷ 101 ∷ 76 ∷ 101 ∷ 110 ∷ []

-- "Join"
abbrev pub key_join : Bytes
key_join = 74 ∷ 111 ∷ 105 ∷ 110 ∷ []

-- "UserMsgLen"
abbrev pub key_user_msg_len : Bytes
key_user_msg_len = 85 ∷ 115 ∷ 101 ∷ 114 ∷ 77 ∷ 115 ∷ 103 ∷ 76 ∷ 101 ∷ 110 ∷ []

-- "Name"
abbrev pub key_name : Bytes
key_name = 78 ∷ 97 ∷ 109 ∷ 101 ∷ []

-- "State"
abbrev pub key_state : Bytes
key_state = 83 ∷ 116 ∷ 97 ∷ 116 ∷ 101 ∷ []

-- "Algo"
abbrev pub key_algo : Bytes
key_algo = 65 ∷ 108 ∷ 103 ∷ 111 ∷ []

-- "Buf"
abbrev pub key_buf : Bytes
key_buf = 66 ∷ 117 ∷ 102 ∷ []
