-- ===== src/Wire/Aurp/Encode.antt =====
-- `Cmd::code`, `Cmd::flags`, `Cmd::encode_body` and `Aurp::encode` (src/wire/aurp.rs). `encode` returns
-- the bytes that the source appends.
use appletalk.Prelude.{ℕ, ◌%◌, true, bit_and, none, some, List, [], ◌∷◌, ◌++◌, length}
use appletalk.Prelude.Bytes.{hi_byte, lo_byte}
use appletalk.Prelude.Integers.{to_u16}
use appletalk.Wire.Pstring.{put_pstring}
use appletalk.Wire.Items.{encode_all}
use appletalk.Wire.Aurp.{
  DomainHeader, Cmd, ri_req, ri_rsp, ri_ack, ri_upd, rd, zi_req, zi_rsp, gzn_req, gzn_rsp, gdzl_req,
  gdzl_rsp, open_req, open_rsp, tickle, tickle_ack, Aurp, data_packet, routing, version, type_data,
  type_routing, env_flags, all_sui, szi_flag, last_flag,
}
use appletalk.Wire.Aurp.Tuples.{encode_di, encode_tuples, encode_net, encode_event}
use appletalk.Wire.Aurp.Options.{encode_options}
use appletalk.Wire.Aurp.Zones.{encode_zi_rsp}

-- The code that a command travels as.
unfoldable pub code : Cmd → ℕ
code (ri_req sui) = 1
code (ri_rsp last tuples) = 2
code (ri_ack szi) = 3
code (ri_upd events) = 4
code (rd c) = 5
code (zi_req nets) = 6
code (gzn_req zone) = 6
code (gdzl_req start) = 6
code (zi_rsp extended zones) = 7
code (gzn_rsp zone tuples) = 7
code (gdzl_rsp last start zones) = 7
code (open_req sui v options) = 8
code (open_rsp env rate_or_err options) = 9
code tickle = 14
code tickle_ack = 15

unfoldable pub flags : Cmd → ℕ
flags (ri_req sui) = bit_and sui all_sui
flags (open_req sui v options) = bit_and sui all_sui
flags (ri_rsp true tuples) = last_flag
flags (gdzl_rsp true start zones) = last_flag
flags (ri_ack true) = szi_flag
flags (open_rsp env rate_or_err options) = bit_and env env_flags
flags _ = 0

unfoldable pub encode_body : Cmd → List ℕ
encode_body (ri_req sui) = []
encode_body (ri_ack szi) = []
encode_body tickle = []
encode_body tickle_ack = []
encode_body (ri_rsp last tuples) = encode_tuples tuples
encode_body (ri_upd events) = encode_all encode_event events
encode_body (rd c) = encode_net (to_u16 c)
encode_body (zi_req nets) = 0 ∷ 1 ∷ encode_all encode_net nets
encode_body (zi_rsp extended zones) = encode_zi_rsp extended zones
encode_body (gzn_req zone) = 0 ∷ 3 ∷ put_pstring zone
encode_body (gzn_rsp zone none) = 0 ∷ 3 ∷ (put_pstring zone ++ (0xff ∷ 0xff ∷ []))
encode_body (gzn_rsp zone (some tuples)) =
    0 ∷ 3 ∷ (put_pstring zone ++ (encode_net (length tuples % 65536) ++ encode_tuples tuples))
encode_body (gdzl_req start) = 0 ∷ 4 ∷ encode_net start
encode_body (gdzl_rsp last start zones) =
    0 ∷ 4 ∷ (encode_net (to_u16 start) ++ encode_all put_pstring zones)
encode_body (open_req sui v options) = encode_net v ++ encode_options options
encode_body (open_rsp env rate_or_err options) =
    encode_net (to_u16 rate_or_err) ++ encode_options options

unfoldable pub encode_header : DomainHeader → ℕ → List ℕ
encode_header dh typ =
    encode_di dh.dst
    ++ (encode_di dh.src
        ++ (hi_byte version ∷ lo_byte version ∷ 0 ∷ 0 ∷ hi_byte typ ∷ lo_byte typ ∷ []))

unfoldable pub encode : Aurp → List ℕ
unfolding encode_header
encode (data_packet dh ddp) = encode_header dh type_data ++ ddp
encode (routing dh conn seq cmd) =
    encode_header dh type_routing
    ++ (hi_byte conn
        ∷ lo_byte conn
        ∷ hi_byte seq
        ∷ lo_byte seq
        ∷ hi_byte (code cmd)
        ∷ lo_byte (code cmd)
        ∷ hi_byte (flags cmd)
        ∷ lo_byte (flags cmd)
        ∷ encode_body cmd)
