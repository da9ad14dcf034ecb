-- ===== src/Router/Ports/Tests.antt =====
-- A port that gives way at a concrete seed.
use appletalk.Prelude.{ℕ, ◌≢◌, none, [], ◌∷◌}
use appletalk.Router.Ports.{Port, Kind}
use appletalk.Router.Ports.Inbound.{restart}
use appletalk.Router.Ports.Claims.{IsNode, restart_lem}

abbrev same_seed : ℕ → Kind → ℕ → ℕ → ℕ
same_seed id kind now attempt = 12

-- The seed gives the node 140 again, which was refused.
abbrev refused : Port
refused = record {
  id = 1;
  name = b'u' ∷ [];
  kind = Kind.ltoudp;
  range = (6800, 6800);
  zones = [];
  node = none;
  amt = [];
  claim = record { node = 140; tries = 3; next = 750; attempt = 0 };
}

restart_lem_example :
    IsNode Kind.ltoudp (restart same_seed 800 refused).claim.node
    × ((restart same_seed 800 refused).claim.node ≢ 140)
restart_lem_example = restart_lem same_seed 800 refused
