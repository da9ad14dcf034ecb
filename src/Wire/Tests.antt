-- ===== src/Wire/Tests.antt =====
-- The wire formats at concrete packets.
use appletalk.Prelude.{
  ◌+◌, ◌≡◌, ◌↔◌, refl, ◌⊎◌, true, false, some, [], ◌∷◌, arith, length, is_some, ◌≤◌, All,
}
use appletalk.Wire.{Addr, Name}
use appletalk.Wire.Pstring.{IsName}
use appletalk.Wire.Aarp
use appletalk.Wire.Aep
use appletalk.Wire.Atp
use appletalk.Wire.Ddp
use appletalk.Wire.Ddp.RoundTrip as DdpRoundTrip
use appletalk.Wire.Frame
use appletalk.Wire.Llap
use appletalk.Wire.Llap.RoundTrip as LlapRoundTrip
use appletalk.Wire.Nbp
use appletalk.Wire.Nbp.RoundTrip as NbpRoundTrip
use appletalk.Wire.Rtmp
use appletalk.Wire.Rtmp.RoundTrip as RtmpRoundTrip
use appletalk.Wire.Zip
use appletalk.Wire.Zip.RoundTrip as ZipRoundTrip
use appletalk.Wire.Packet
use appletalk.Wire.Packet.Stack

abbrev office : Name
office = b'O' ∷ b'f' ∷ []

abbrev router_addr : Addr
router_addr = record { net = 6800; node = 1 }

abbrev router_mac : Frame.MacAddr
router_mac = record { m0 = 2; m1 = 0; m2 = 0; m3 = 0; m4 = 0; m5 = 1 }

abbrev beacon : Rtmp.Rtmp
beacon =
    Rtmp.routes router_addr (some (6800, 6810))
      (record { range = (7100, 7110); extended = true; distance = 2 } ∷ [])

beacon-IsPacket : RtmpRoundTrip.IsPacket beacon
beacon-IsPacket = (
  omega arith,
  (omega arith, omega arith),
  (record { start = omega arith; end = omega arith; distance = omega arith; single = λ e. cc }, tt),
)

abbrev datagram : Ddp.Ddp
datagram = record {
  hops = 0;
  length = 0;
  checksum = 0;
  dst = record { net = 0; node = 255 };
  dst_socket = 1;
  src = router_addr;
  src_socket = 1;
  typ = 1;
  bytes = Rtmp.encode beacon;
}

datagram-IsDatagram : DdpRoundTrip.IsDatagram datagram
datagram-IsDatagram = record {
  hops = omega arith;
  checksum = omega arith;
  dst_net = omega arith;
  src_net = omega arith;
}

abbrev ddp_frame : Frame.Frame
ddp_frame = record {
  dst = router_mac;
  src = router_mac;
  proto = Frame.ddp;
  snap = true;
  payload = Ddp.encode datagram;
}

beacon_short : length datagram.bytes ≤ 40
unfolding Rtmp.encode Rtmp.encode_range Rtmp.encode_tuples Rtmp.encode_with
beacon_short = omega arith

decode-encode_example :
    Packet.decode (Frame.encode ddp_frame)
    ≡ some (record {
      frame = ddp_frame;
      body =
          Packet.ddp (record datagram { length = 13 + length datagram.bytes }) (Packet.rtmp beacon);
    })
decode-encode_example =
    Stack.decode-encode ddp_frame datagram (Packet.rtmp beacon) refl refl refl datagram-IsDatagram
      (omega (arith, beacon_short)) beacon-IsPacket (unfold Rtmp.ddp_type in refl) refl

abbrev probe : Aarp.Aarp
probe = record {
  op = 3;
  src_hw = router_mac;
  src = router_addr;
  dst_hw = router_mac;
  dst = record { net = 6800; node = 77 };
}

probe-IsPacket : Aarp.IsPacket probe
probe-IsPacket = record { op = omega arith; src = omega arith; dst = omega arith }

abbrev aarp_frame : Frame.Frame
aarp_frame = record ddp_frame { proto = Frame.aarp; payload = Aarp.encode probe }

decode-encode-aarp_example :
    Packet.decode (Frame.encode aarp_frame)
    ≡ some (record { frame = aarp_frame; body = Packet.aarp probe })
decode-encode-aarp_example = Stack.decode-encode-aarp aarp_frame probe refl refl refl probe-IsPacket

decode_iff_example : (is_some (Packet.decode (Frame.encode aarp_frame)) ≡ true) ↔ (
    (f : Frame.Frame) × (Frame.parse (Frame.encode aarp_frame) ≡ some f)
    × ((f.proto ≡ Frame.ddp) ⊎ (f.proto ≡ Frame.aarp)))
decode_iff_example = Stack.decode_iff (Frame.encode aarp_frame)

parse-encode_datagram_example :
    Ddp.parse (Ddp.encode datagram) ≡ some (record datagram { length = 13 + length datagram.bytes })
parse-encode_datagram_example =
    DdpRoundTrip.parse-encode_datagram datagram datagram-IsDatagram (omega (arith, beacon_short))

abbrev small_frame : Frame.Frame
small_frame = record ddp_frame { payload = office }

abbrev phase1_frame : Frame.Frame
phase1_frame = record small_frame { snap = false }

parse-encode_rtmp_example : Rtmp.parse (Rtmp.ddp_type beacon) (Rtmp.encode beacon) ≡ some beacon
parse-encode_rtmp_example = RtmpRoundTrip.parse-encode_rtmp beacon beacon-IsPacket

abbrev lookup : Nbp.Nbp
lookup = record {
  func = Nbp.lk_up;
  id = 7;
  tuples =
      record {
        addr = router_addr;
        socket = 254;
        enumerator = 0;
        object = b'=' ∷ [];
        typ = b'A' ∷ b'F' ∷ b'P' ∷ [];
        zone = office;
      }
      ∷ [];
}

lookup_AllIsTuple : All NbpRoundTrip.IsTuple lookup.tuples
lookup_AllIsTuple = (
  record {
    net = omega arith;
    object = (omega arith, (omega arith, tt));
    typ = (omega arith, (omega arith, (omega arith, (omega arith, tt))));
    zone = (omega arith, (omega arith, (omega arith, tt)));
  },
  tt,
)

parse-encode_nbp_example : Nbp.parse (Nbp.encode lookup) ≡ some lookup
parse-encode_nbp_example = NbpRoundTrip.parse-encode_nbp lookup lookup_AllIsTuple (omega arith)

abbrev part : Atp.Atp
part = Atp.response 9 0 true false (1, 0, 0, 1) office

office-IsName : IsName office
office-IsName = (omega arith, (omega arith, (omega arith, tt)))

abbrev zone_reply : Zip.Zip
zone_reply = Zip.reply ((6800, office) ∷ []) (some 1)

parse-encode_zip_example : Zip.parse (Zip.encode zone_reply) ≡ some zone_reply
parse-encode_zip_example =
    ZipRoundTrip.parse-encode_zip zone_reply ((omega arith, office-IsName), tt)

abbrev enquiry : Llap.Llap
enquiry = Llap.control 77 77 Llap.llap_enq

parse_iff_llap_example :
    (Llap.parse (Llap.encode enquiry) ≡ some enquiry)
    ↔ ((Llap.encode enquiry ≡ Llap.encode enquiry) × LlapRoundTrip.IsLlap enquiry.typ enquiry.bytes)
parse_iff_llap_example = LlapRoundTrip.parse_iff_llap (Llap.encode enquiry) enquiry

abbrev short_frame : Llap.Llap
short_frame = record {
  dst = 255;
  src = 1;
  typ = Llap.llap_short_ddp;
  bytes = Ddp.to_short_bytes datagram;
}

abbrev echo : Aep.Aep
echo = record { func = Aep.request; bytes = office }
