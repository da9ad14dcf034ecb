-- ===== src/Wire/Aurp/RoundTrip.antt =====
-- The peers' routing packets written and read back (src/wire/aurp.rs).
pub mod Items
pub mod Zones
use mathlib.Core.List.{append_assoc, append-nil}
use appletalk.Prelude.{
  ℕ, ◌+◌, ◌*◌, ◌%◌, ◌≤◌, ◌<◌, ◌≡◌, refl, sym, ap, ◌∙◌, Bool, true, false, bit_and, Option, none,
  some, List, [], ◌∷◌, ◌++◌, ◌==◌, length, length-append, arith, All, ◌>>=◌, if◌then◌else◌,
}
use appletalk.Prelude.Bytes.{IsU16, from_be, hi_byte, lo_byte, from_be-bytes}
use appletalk.Prelude.Integers.{ℤ, pos, IsI16, to_u16, from_u16, from_u16-to_u16, to_u16-bounds}
use appletalk.Wire.Pstring.{put_pstring, pstring, IsName, pstring-put_pstring}
use appletalk.Wire.Rtmp.{parse_tuple}
use appletalk.Wire.Rtmp.RoundTrip.{IsTuple}
use appletalk.Wire.Items.{to_end, counted, encode_all}
use appletalk.Wire.Aurp.{
  DomainHeader, Cmd, ri_req, ri_rsp, ri_ack, ri_upd, rd, zi_req, zi_rsp, gzn_req, gzn_rsp, gdzl_req,
  gdzl_rsp, open_req, open_rsp, tickle, tickle_ack, Aurp, data_packet, routing, env_flags, all_sui,
}
use appletalk.Wire.Aurp.Tuples.{
  parse_di, encode_di, encode_tuples, parse_net, encode_net, parse_event, encode_event,
}
use appletalk.Wire.Aurp.Options.{at_end, parse_options, encode_options, encode_option}
use appletalk.Wire.Aurp.Zones.{encode_zi_rsp}
use appletalk.Wire.Aurp.Parse.{
  if_empty, parse_ri_upd, parse_rd, parse_open_req, parse_open_rsp, parse_zi_req, parse_gzn_req,
  parse_gzn_tuples, parse_gzn_rsp, parse_gdzl_req, parse_gdzl_rsp, parse_sub, parse_cmd, parse_data,
  parse_routing, parse_body, parse,
}
use appletalk.Wire.Aurp.Encode.{code, flags, encode_body, encode_header, encode}
use appletalk.Wire.Aurp.RoundTrip.Items.{
  IsDi, parse_di-encode_di, parse_tuples-encode_tuples, counted_tuples, parse_net-encode_net,
  nets_to_end, names_to_end, IsEvent, events_to_end, IsOption, parse_options-encode_options,
}
use appletalk.Wire.Aurp.RoundTrip.Zones.{IsZones, parse_zi_rsp_extended, parse_zi_rsp_plain}

-- A word of flags, none of which is reserved.
abbrev IsFlags : ℕ → ℕ → Type 0
IsFlags mask w = IsU16 w × (bit_and w mask ≡ w)

abbrev IsOptions : List (ℕ × List ℕ) → Type 0
IsOptions options = All IsOption options × (length options < 256)

-- A command that a packet can carry.
abbrev pub IsCmd : Cmd → Type 0
IsCmd (ri_req sui) = IsFlags all_sui sui
IsCmd (ri_rsp last tuples) = All IsTuple tuples
IsCmd (ri_ack szi) = Unit
IsCmd (ri_upd events) = All IsEvent events
IsCmd (rd c) = IsI16 c
IsCmd (zi_req nets) = All IsU16 nets
IsCmd (zi_rsp extended zones) = IsZones extended zones
IsCmd (gzn_req zone) = IsName zone
IsCmd (gzn_rsp zone none) = IsName zone
IsCmd (gzn_rsp zone (some tuples)) = IsName zone × All IsTuple tuples × (length tuples < 32768)
IsCmd (gdzl_req start) = IsU16 start
IsCmd (gdzl_rsp last start zones) = IsI16 start × All IsName zones
IsCmd (open_req sui v options) = IsFlags all_sui sui × IsU16 v × IsOptions options
IsCmd (open_rsp env rate_or_err options) =
    IsFlags env_flags env × IsI16 rate_or_err × IsOptions options
IsCmd tickle = Unit
IsCmd tickle_ack = Unit

signed : (z : ℤ) → IsI16 z → from_u16 (from_be (hi_byte (to_u16 z)) (lo_byte (to_u16 z))) ≡ z
signed z v = ap from_u16 (from_be-bytes (to_u16 z) (to_u16-bounds z v)) ∙ from_u16-to_u16 z v

even_bytes : (nets : List ℕ) → length (encode_all encode_net nets) % 2 ≡ 0
unfolding encode_all encode_net
even_bytes [] = refl
even_bytes (n ∷ nets) = omega (arith, even_bytes nets)

parse_cmd-encode_body :
    (cmd : Cmd) → IsCmd cmd → parse_cmd (code cmd) (flags cmd) (encode_body cmd) ≡ some cmd
unfolding parse_cmd code flags encode_body
parse_cmd-encode_body (ri_req sui) (n, e) = unfold if_empty in rw (e, e)
parse_cmd-encode_body (ri_rsp true tuples) v = rw (parse_tuples-encode_tuples tuples v, ◌>>=◌)
parse_cmd-encode_body (ri_rsp false tuples) v = rw (parse_tuples-encode_tuples tuples v, ◌>>=◌)
parse_cmd-encode_body (ri_ack true) v = unfold if_empty in refl
parse_cmd-encode_body (ri_ack false) v = unfold if_empty in refl
parse_cmd-encode_body (ri_upd events) v = unfold parse_ri_upd in rw (events_to_end events v, ◌>>=◌)
parse_cmd-encode_body (rd c) v = unfold parse_rd encode_net in rw (signed c v)
parse_cmd-encode_body (zi_req nets) v =
    unfold parse_sub parse_zi_req in rw (even_bytes nets, nets_to_end nets v, ◌>>=◌)
parse_cmd-encode_body (zi_rsp none zones) v =
    unfold parse_sub encode_zi_rsp in parse_zi_rsp_plain zones v
parse_cmd-encode_body (zi_rsp (some total) zones) v =
    unfold parse_sub encode_zi_rsp in parse_zi_rsp_extended total zones v
parse_cmd-encode_body (gzn_req zone) v =
    unfold parse_sub parse_gzn_req in
    rw (← append-nil (put_pstring zone))
      (rw (pstring-put_pstring zone [] v, ◌>>=◌) (unfold at_end in refl))
parse_cmd-encode_body (gzn_rsp zone none) v =
    unfold parse_sub parse_gzn_rsp parse_net in
    rw (pstring-put_pstring zone (0xff ∷ 0xff ∷ []) v, ◌>>=◌)
      (unfold parse_gzn_tuples at_end in refl)
parse_cmd-encode_body (gzn_rsp zone (some tuples)) (n, v, h) =
    let count : from_u16 (length tuples % 65536) ≡ pos (length tuples) = ground arith in
    let net = parse_net-encode_net (length tuples % 65536) (encode_tuples tuples) (omega arith) in
    let read =
      ap (counted parse_tuple (length tuples)) (sym (append-nil (encode_tuples tuples)))
      ∙ counted_tuples tuples [] v in
    unfold parse_sub parse_gzn_rsp in
    rw
      (
        pstring-put_pstring zone (encode_net (length tuples % 65536) ++ encode_tuples tuples) n,
        ◌>>=◌,
      )
      (rw (net, ◌>>=◌) (rw count (unfold parse_gzn_tuples at_end in rw (read, ◌>>=◌))))
parse_cmd-encode_body (gdzl_req start) v =
    unfold parse_sub parse_gdzl_req encode_net in rw (from_be-bytes start v)
parse_cmd-encode_body (gdzl_rsp true start zones) (n, v) =
    unfold parse_sub parse_gdzl_rsp encode_net in rw (signed start n, names_to_end zones v, ◌>>=◌)
parse_cmd-encode_body (gdzl_rsp false start zones) (n, v) =
    unfold parse_sub parse_gdzl_rsp encode_net in rw (signed start n, names_to_end zones v, ◌>>=◌)
parse_cmd-encode_body (open_req sui v options) ((n, e), m, (o, h)) =
    unfold parse_open_req encode_net encode_options in
    rw (e, e, from_be-bytes v m, parse_options-encode_options options o h, ◌>>=◌)
parse_cmd-encode_body (open_rsp env rate_or_err options) ((n, e), m, (o, h)) =
    unfold parse_open_rsp encode_net encode_options in
    rw (e, e, signed rate_or_err m, parse_options-encode_options options o h, ◌>>=◌)
parse_cmd-encode_body tickle v = unfold if_empty in refl
parse_cmd-encode_body tickle_ack v = unfold if_empty in refl

-- A datagram with its extended header, whose length is that of its bytes.
abbrev pub IsDdp : List ℕ → Type 0
IsDdp (h0 ∷ h1 ∷ rest) =
    (13 ≤ length (h0 ∷ h1 ∷ rest)) × (from_be (bit_and h0 0x03) h1 ≡ length (h0 ∷ h1 ∷ rest))
IsDdp short = length short ≡ 13

abbrev IsHeader : DomainHeader → Type 0
IsHeader dh = IsDi dh.dst × IsDi dh.src

abbrev pub IsPacket : Aurp → Type 0
IsPacket (data_packet dh ddp) = IsHeader dh × IsDdp ddp
IsPacket (routing dh conn seq cmd) = IsHeader dh × IsU16 conn × IsU16 seq × IsCmd cmd

flags-IsU16 : (cmd : Cmd) → IsCmd cmd → IsU16 (flags cmd)
unfolding flags
flags-IsU16 (ri_req sui) (n, e) = omega arith
flags-IsU16 (ri_rsp true tuples) v = omega arith
flags-IsU16 (ri_rsp false tuples) v = omega arith
flags-IsU16 (ri_ack true) v = omega arith
flags-IsU16 (ri_ack false) v = omega arith
flags-IsU16 (gdzl_rsp true start zones) v = omega arith
flags-IsU16 (gdzl_rsp false start zones) v = omega arith
flags-IsU16 (open_req sui v options) ((n, e), m, o) = omega arith
flags-IsU16 (open_rsp env rate_or_err options) ((n, e), m, o) = omega arith
flags-IsU16 _ v = omega arith

code-IsU16 : (cmd : Cmd) → IsU16 (code cmd)
unfolding code
code-IsU16 cmd = ground arith

parse-encode_header :
    (dh : DomainHeader) (typ : ℕ) (rest : List ℕ)
    → IsHeader dh
    → parse (encode_header dh typ ++ rest)
      ≡ parse_body dh (0 ∷ 1 ∷ 0 ∷ 0 ∷ hi_byte typ ∷ lo_byte typ ∷ rest)
unfolding parse encode_header
parse-encode_header dh typ rest (d, s) =
    let tail : List ℕ = 0 ∷ 1 ∷ 0 ∷ 0 ∷ hi_byte typ ∷ lo_byte typ ∷ [] in
    rw
      (
        append_assoc (encode_di dh.dst) (encode_di dh.src ++ tail) rest,
        append_assoc (encode_di dh.src) tail rest,
      )
      (rw (parse_di-encode_di dh.dst (encode_di dh.src ++ (tail ++ rest)) d, ◌>>=◌)
        (rw (parse_di-encode_di dh.src (tail ++ rest) s, ◌>>=◌)))

parse_data-IsDdp :
    (dh : DomainHeader) (ddp : List ℕ) → IsDdp ddp → parse_data dh ddp ≡ some (data_packet dh ddp)
unfolding parse_data
parse_data-IsDdp dh [] v = absurd (omega arith)
parse_data-IsDdp dh (h0 ∷ []) v = absurd (omega arith)
parse_data-IsDdp dh (h0 ∷ h1 ∷ rest) (n, e) = ground arith

-- Every packet between peers is read back from its bytes: the addresses have 32 bits, the connection
-- ID and the sequence number 16, a data packet is a datagram of 13 bytes or more whose 10-bit length
-- is its own, and a command's numbers, names, options and tuples fit their fields, with a zone reply's
-- tuples in 32767 bytes.
pub parse-encode_aurp : (a : Aurp) → IsPacket a → parse (encode a) ≡ some a
unfolding encode
parse-encode_aurp (data_packet dh ddp) (v, e) =
    parse-encode_header dh 2 ddp v ∙ unfold parse_body in parse_data-IsDdp dh ddp e
parse-encode_aurp (routing dh conn seq cmd) (v, c, s, w) =
    parse-encode_header dh 3 _ v
    ∙ unfold parse_body parse_routing in
      rw
        (
          from_be-bytes conn c,
          from_be-bytes seq s,
          from_be-bytes (code cmd) (code-IsU16 cmd),
          from_be-bytes (flags cmd) (flags-IsU16 cmd w),
        )
        (rw (parse_cmd-encode_body cmd w, ◌>>=◌))
