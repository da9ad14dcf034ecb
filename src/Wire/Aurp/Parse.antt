-- ===== src/Wire/Aurp/Parse.antt =====
-- `Cmd::parse` and `Aurp::parse` (src/wire/aurp.rs).
use appletalk.Prelude.{
  ℕ, zero, suc, ◌%◌, not, bit_and, Option, none, some, List, [], ◌∷◌, ◌==◌, ◌&&◌, ltb, length,
  ◌>>=◌, if◌then◌else◌,
}
use appletalk.Prelude.Bytes.{from_be}
use appletalk.Prelude.Integers.{ℤ, negsuc, pos, from_u16}
use appletalk.Wire.{Name}
use appletalk.Wire.Pstring.{pstring}
use appletalk.Wire.Rtmp.{parse_tuple}
use appletalk.Wire.Items.{to_end, counted}
use appletalk.Wire.Aurp.{
  DomainHeader, Cmd, ri_req, ri_rsp, ri_ack, ri_upd, rd, zi_req, gzn_req, gzn_rsp, gdzl_req,
  gdzl_rsp, open_req, open_rsp, tickle, tickle_ack, Aurp, data_packet, routing, version, type_data,
  type_routing, env_flags, all_sui, szi_flag, last_flag,
}
use appletalk.Wire.Aurp.Tuples.{parse_di, parse_tuples, parse_net, parse_event}
use appletalk.Wire.Aurp.Options.{at_end, parse_options}
use appletalk.Wire.Aurp.Zones.{parse_zi_rsp}

-- `b.is_empty().then_some(cmd)`.
unfoldable pub if_empty : List ℕ → Cmd → Option Cmd
if_empty [] cmd = some cmd
if_empty (b ∷ bs) cmd = none

unfoldable pub parse_ri_upd : List ℕ → Option Cmd
parse_ri_upd b = to_end parse_event (length b) b >>= λ events. some (ri_upd events)

unfoldable pub parse_rd : List ℕ → Option Cmd
parse_rd (hi ∷ lo ∷ []) = some (rd (from_u16 (from_be hi lo)))
parse_rd _ = none

unfoldable pub parse_open_req : ℕ → List ℕ → Option Cmd
parse_open_req flags (h0 ∷ h1 ∷ h2 ∷ p) = parse_options p h2 >>= λ options.
    some (open_req (bit_and flags all_sui) (from_be h0 h1) options)
parse_open_req flags _ = none

unfoldable pub parse_open_rsp : ℕ → List ℕ → Option Cmd
parse_open_rsp flags (h0 ∷ h1 ∷ h2 ∷ p) = parse_options p h2 >>= λ options.
    some (open_rsp (bit_and flags env_flags) (from_u16 (from_be h0 h1)) options)
parse_open_rsp flags _ = none

unfoldable pub parse_zi_req : List ℕ → Option Cmd
parse_zi_req rest =
    if not (length rest % 2 == 0)
    then none
    else to_end parse_net (length rest) rest >>= λ nets. some (zi_req nets)

unfoldable pub parse_gzn_req : List ℕ → Option Cmd
unfolding at_end
parse_gzn_req rest = do (zone, tail) ← pstring rest; at_end (gzn_req zone, tail)

-- A count of -1 says that the request is not supported, and ends the packet; no other one is negative.
unfoldable pub parse_gzn_tuples : Name → ℤ → List ℕ → Option Cmd
parse_gzn_tuples zone (negsuc zero) rest = at_end (gzn_rsp zone none, rest)
parse_gzn_tuples zone (negsuc (suc _)) rest = none
parse_gzn_tuples zone (pos count) rest = do
  (tuples, tail) ← counted parse_tuple count rest
  at_end (gzn_rsp zone (some tuples), tail)

unfoldable pub parse_gzn_rsp : List ℕ → Option Cmd
unfolding parse_gzn_tuples
parse_gzn_rsp rest = do
  (zone, tail) ← pstring rest
  (count, tail') ← parse_net tail
  parse_gzn_tuples zone (from_u16 count) tail'

unfoldable pub parse_gdzl_req : List ℕ → Option Cmd
parse_gdzl_req (hi ∷ lo ∷ []) = some (gdzl_req (from_be hi lo))
parse_gdzl_req _ = none

unfoldable pub parse_gdzl_rsp : ℕ → List ℕ → Option Cmd
parse_gdzl_rsp flags (h0 ∷ h1 ∷ rest) = to_end pstring (length rest) rest >>= λ zones.
    some (gdzl_rsp (not (bit_and flags last_flag == 0)) (from_u16 (from_be h0 h1)) zones)
parse_gdzl_rsp flags _ = none

-- Commands 6 and 7 carry a two-byte subcode first.
unfoldable pub parse_sub : ℕ → ℕ → List ℕ → Option Cmd
parse_sub code flags (s0 ∷ s1 ∷ rest) =
    let sub = from_be s0 s1 in
    if code == 6 && sub == 1
    then parse_zi_req rest
    else if code == 7 && sub == 1
    then parse_zi_rsp sub (s0 ∷ s1 ∷ rest)
    else if code == 7 && sub == 2
    then parse_zi_rsp sub (s0 ∷ s1 ∷ rest)
    else if code == 6 && sub == 3
    then parse_gzn_req rest
    else if code == 7 && sub == 3
    then parse_gzn_rsp rest
    else if code == 6 && sub == 4
    then parse_gdzl_req rest
    else if code == 7 && sub == 4
    then parse_gdzl_rsp flags rest
    else none
parse_sub code flags _ = none

-- Codes 10 to 13 and above 15 are undefined.
unfoldable pub parse_cmd : ℕ → ℕ → List ℕ → Option Cmd
parse_cmd code flags b =
    if code == 1
    then if_empty b (ri_req (bit_and flags all_sui))
    else if code == 2
    then (parse_tuples b >>= λ tuples. some (ri_rsp (not (bit_and flags last_flag == 0)) tuples))
    else if code == 3
    then if_empty b (ri_ack (not (bit_and flags szi_flag == 0)))
    else if code == 4
    then parse_ri_upd b
    else if code == 5
    then parse_rd b
    else if code == 6
    then parse_sub code flags b
    else if code == 7
    then parse_sub code flags b
    else if code == 8
    then parse_open_req flags b
    else if code == 9
    then parse_open_rsp flags b
    else if code == 14
    then if_empty b tickle
    else if code == 15
    then if_empty b tickle_ack
    else none

-- One datagram with its extended header, whose length is that of the whole body.
unfoldable pub parse_data : DomainHeader → List ℕ → Option Aurp
parse_data dh (h0 ∷ h1 ∷ rest) =
    if ltb (length (h0 ∷ h1 ∷ rest)) 13
    then none
    else if from_be (bit_and h0 0x03) h1 == length (h0 ∷ h1 ∷ rest)
    then some (data_packet dh (h0 ∷ h1 ∷ rest))
    else none
parse_data dh _ = none

unfoldable pub parse_routing : DomainHeader → List ℕ → Option Aurp
parse_routing dh (h0 ∷ h1 ∷ h2 ∷ h3 ∷ h4 ∷ h5 ∷ h6 ∷ h7 ∷ b) =
    parse_cmd (from_be h4 h5) (from_be h6 h7) b >>= λ cmd.
    some (routing dh (from_be h0 h1) (from_be h2 h3) cmd)
parse_routing dh _ = none

-- The version, two reserved bytes and the packet type.
unfoldable pub parse_body : DomainHeader → List ℕ → Option Aurp
parse_body dh (h0 ∷ h1 ∷ h2 ∷ h3 ∷ h4 ∷ h5 ∷ body) =
    if not (from_be h0 h1 == version)
    then none
    else if from_be h4 h5 == type_data
    then parse_data dh body
    else if from_be h4 h5 == type_routing
    then parse_routing dh body
    else none
parse_body dh _ = none

unfoldable pub parse : List ℕ → Option Aurp
parse p = do
  (dst, rest) ← parse_di p
  (src, rest') ← parse_di rest
  parse_body (record { dst = dst; src = src }) rest'
