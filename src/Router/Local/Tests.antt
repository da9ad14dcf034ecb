-- ===== src/Router/Local/Tests.antt =====
-- The local services at concrete lists.
use appletalk.Prelude.{
  ◌≡◌, true, refl, inl, inr, In, ℕ_discrete, false, none, some, [], ◌∷◌, arith, All,
}
use appletalk.Wire.{Name, Addr}
use appletalk.Prelude.Maps.{get}
use appletalk.Wire.Rtmp.{NetworkTuple, Rtmp}
use appletalk.Wire.Ddp.{Ddp}
use appletalk.Wire.Pstring.{IsName}
use appletalk.Router.{port}
use appletalk.Router.Table.{Tables, Route, good, best_for_start, pick, pick_loop}
use appletalk.Router.Ports.{Port, Kind, port_addr}
use appletalk.Router.Local.{new_local, due, datagram}
use appletalk.Router.Local.Services.{tick}
use appletalk.Router.Local.Announced.{IsAdvertised, beacon, tick-announces}
use appletalk.Router.Local.Rtmp.{chunk}
use appletalk.Router.Local.Beacons.{told, tuples_of, Fits, chunk_lem}
use appletalk.Router.Local.ZoneList.{collect, collect-zone_list}

abbrev office : Name
office = b'O' ∷ b'f' ∷ []

abbrev lab : Name
lab = b'L' ∷ []

office-IsName : IsName office
office-IsName = (omega arith, (omega arith, (omega arith, tt)))

lab-IsName : IsName lab
lab-IsName = (omega arith, (omega arith, tt))

abbrev us : Addr
us = record { net = 6800; node = 200 }

abbrev far : NetworkTuple
far = record { range = (7100, 7100); extended = false; distance = 1 }

chunk_lem_example :
    (told (chunk us none (far ∷ [])) ≡ far ∷ []) × All Fits (chunk us none (far ∷ []))
chunk_lem_example = chunk_lem us none (far ∷ [])

abbrev local_port : Port
local_port = record {
  id = 2;
  name = [];
  kind = Kind.ltoudp;
  range = (6800, 6800);
  zones = office ∷ [];
  node = some 200;
  amt = [];
  claim = record { node = 200; tries = 0; next = 0; attempt = 0 };
}

abbrev far_route : Route
far_route = record {
  range = (7100, 7100);
  extended = false;
  distance = 1;
  target = port 1;
  next = record { net = 6900; node = 7 };
  state = good;
  seen = 0;
}

abbrev zoned : Tables
zoned = record {
  routes = far_route ∷ [];
  zones = (7100, (7100, record { names = lab ∷ []; expected = some 1 })) ∷ [];
  best = [];
}

far_best : best_for_start zoned 7100 ≡ some far_route
unfolding best_for_start pick pick_loop
far_best = refl

zoned-IsAdvertised : IsAdvertised zoned (local_port ∷ []) (7100, 7100)
unfolding get ℕ_discrete
zoned-IsAdvertised = inr (
  7100,
  record { names = lab ∷ []; expected = some 1 },
  refl,
  (omega arith, inr (1, refl, omega arith)),
)

tick-announces_example :
    (x : Rtmp) × In (beacon local_port us x) (tick (local_port ∷ []) zoned 30 (new_local [])).1
    × In far (tuples_of x)
unfolding port_addr due new_local
tick-announces_example =
    tick-announces (local_port ∷ []) zoned 30 (new_local []) local_port us 7100 far_route refl
      (inl refl) refl far_best (λ e. cc) (omega arith) zoned-IsAdvertised

abbrev two_zones : Port
two_zones = record local_port { zones = office ∷ lab ∷ [] }

abbrev asking : Ddp
asking = datagram (record { net = 6800; node = 9 }) 130 (record { net = 6800; node = 200 }) 6 3 []

collect-zone_list_example : collect 3 true two_zones asking zoned 9 1 ≡ some (office ∷ lab ∷ [])
unfolding port_addr
collect-zone_list_example =
    collect-zone_list true two_zones asking zoned 9 us refl (omega arith)
      (office-IsName, (lab-IsName, tt)) (omega arith)
