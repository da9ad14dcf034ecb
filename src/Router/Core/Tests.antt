-- ===== src/Router/Core/Tests.antt =====
-- The router's forwarding at a concrete router, with one route through a tunnel.
use appletalk.Prelude.{ℕ, ◌≡◌, ◌≢◌, ◌+◌, ◌≤◌, refl, inl, true, false, some, [], ◌∷◌, In, arith}
use appletalk.Wire.Ddp as Ddp
use appletalk.Wire.Aurp.{ip}
use appletalk.Router.{Target}
use appletalk.Router.Actions.{Action, to_llap}
use appletalk.Router.Table.{Tables, Route, good, best, pick, pick_loop, contains}
use appletalk.Router.Local.{new_local}
use appletalk.Router.Aurp.Peers as AurpPeers
use appletalk.Router.Ports.{Port, Kind}
use appletalk.Router.Ports.Sending as Sending
use appletalk.Router.Emits.{Dest}
use appletalk.Router.Core.{Router, Origin, forward, hop, placed, port_at}
use appletalk.Router.Core.Hops.{heard, travels_lem}
use appletalk.Router.Core.NoEcho.{action_target, origin_target, forward_never_back}

abbrev far : Route
far = record {
  range = (7100, 7110);
  extended = true;
  distance = 3;
  target = Target.peer 9;
  next = record { net = 0; node = 0 };
  state = good;
  seen = 5;
}

abbrev tunnelled : Tables
tunnelled = record { routes = far ∷ []; zones = []; best = [] }

abbrev small : Router
small = record {
  ports = [];
  tables = tunnelled;
  local = new_local [];
  peers = record {
    local = ip 1;
    open_peering = false;
    peers = [];
    configured = [];
    next_conn = 1;
    last_scan = 0;
    last_zi = 0;
    logged = [];
  };
}

abbrev sent : Ddp.Ddp
sent = record {
  hops = 3;
  length = 14;
  checksum = 0;
  dst = record { net = 7105; node = 7 };
  dst_socket = 4;
  src = record { net = 6800; node = 5 };
  src_socket = 128;
  typ = 4;
  bytes = 1 ∷ [];
}

far_best : best tunnelled 7105 ≡ some far
unfolding best pick pick_loop contains
far_best = refl

-- Two routers each with the route through the other, one after the other on a LocalTalk cable.
abbrev cable : Port
cable = record {
  id = 3;
  name = [];
  kind = Kind.ltoudp;
  range = (7000, 7000);
  zones = [];
  node = some 140;
  amt = [];
  claim = record { node = 140; tries = 0; next = 0; attempt = 0 };
}

abbrev looped : Router
looped = record small {
  ports = cable ∷ [];
  tables = record tunnelled {
    routes = record far { target = Target.port 3; next = record { net = 7000; node = 9 } } ∷ [];
  };
}

abbrev hopped : ℕ → Ddp.Ddp
hopped hops = record sent { hops = hops }

abbrev crosses : ℕ → Action
crosses hops = to_llap 3 (Sending.to_llap_frame cable 140 (Dest.node 9) (hopped hops))

first_In : In (crosses 4) (forward (Origin.port 2) (placed (port_at 2 looped.ports) sent) looped)
unfolding forward best pick pick_loop contains placed port_at Sending.emit
first_In = inl refl

second_In :
    In (crosses 5) (forward (Origin.port 2) (placed (port_at 2 looped.ports) (hopped 4)) looped)
unfolding forward best pick pick_loop contains placed port_at Sending.emit
second_In = inl refl

first_heard : heard (crosses 4) ≡ some (hopped 4)
unfolding Sending.to_llap_frame Ddp.parse Ddp.encode
first_heard = refl

second_heard : heard (crosses 5) ≡ some (hopped 5)
unfolding Sending.to_llap_frame Ddp.parse Ddp.encode
second_heard = refl

travels_lem_example : sent.hops + 2 ≤ 15
travels_lem_example =
    travels_lem ((looped, 2) ∷ (looped, 2) ∷ []) sent
      (
        crosses 4,
        hopped 4,
        first_In,
        first_heard,
        (crosses 5, hopped 5, second_In, second_heard, tt),
      )
      (omega arith)

abbrev passed : Action
passed = AurpPeers.forward 9 (Ddp.encode (hop (Origin.port 2) (Target.peer 9) sent)) small.peers

passed-In : In passed (forward (Origin.port 2) sent small)
unfolding forward best pick pick_loop contains
passed-In = inl refl

forward_never_back_example :
    ((t : Target) × (action_target passed ≡ some t))
    × (action_target passed ≢ origin_target (Origin.port 2))
forward_never_back_example = forward_never_back (Origin.port 2) sent small passed passed-In
