-- ===== src/Router/Emits.antt =====
-- src/router/mod.rs: the datagrams that a service wants sent.
use appletalk.Prelude.{ℕ}
use appletalk.Wire.{Name}
use appletalk.Wire.Ddp.{Ddp}

pub data Dest : Type 0 where
  node : ℕ → Dest
  broadcast : Dest
  zone : Name → Dest

-- `route` is forwarded as if it originated here.
pub data Emit : Type 0 where
  on : ℕ → Dest → Ddp → Emit
  route : Ddp → Emit
