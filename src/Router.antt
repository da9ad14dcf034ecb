-- ===== src/Router.antt =====
-- src/router: where a datagram goes, and the router's tables.
pub mod Table
pub mod Multicast
pub mod States
pub mod Actions
pub mod Aurp
pub mod Ports
pub mod Emits
pub mod Local
pub mod Core
mod Tests
use appletalk.Prelude.{ℕ, ℕ_discrete}

-- Out one of our own ports, or down a tunnel to the peer at an IPv4 address.
pub data Target : Type 0 where
  port : ℕ → Target
  peer : ℕ → Target

unfoldable pub Target-discrete : Discrete Target
Target-discrete = hlevel ℕ_discrete
