-- ===== src/Wire/Aurp/Tests.antt =====
-- The peers' packets at a concrete packet.
use appletalk.Prelude.{◌≡◌, true, some, [], ◌∷◌, arith}
use appletalk.Wire.Rtmp.{NetworkTuple}
use appletalk.Wire.Rtmp.RoundTrip.{IsTuple}
use appletalk.Wire.Aurp.{Aurp, routing, ip, ri_rsp}
use appletalk.Wire.Aurp.Parse.{parse}
use appletalk.Wire.Aurp.Encode.{encode}
use appletalk.Wire.Aurp.RoundTrip.{IsPacket, parse-encode_aurp}

abbrev office_net : NetworkTuple
office_net = record { range = (6800, 6809); extended = true; distance = 0 }

abbrev last_page : Aurp
last_page =
    routing (record { dst = ip 3221225985; src = ip 3221225986 }) 7 1
      (ri_rsp true (office_net ∷ []))

office_net-IsTuple : IsTuple office_net
office_net-IsTuple = record {
  start = omega arith;
  end = omega arith;
  distance = omega arith;
  single = λ e. cc;
}

last_page-IsPacket : IsPacket last_page
last_page-IsPacket =
    ((omega arith, omega arith), omega arith, omega arith, (office_net-IsTuple, tt))

parse-encode_aurp_example : parse (encode last_page) ≡ some last_page
parse-encode_aurp_example = parse-encode_aurp last_page last_page-IsPacket
