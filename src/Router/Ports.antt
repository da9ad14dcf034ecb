-- ===== src/Router/Ports.antt =====
-- src/router/ports.rs: what a port of the router holds, and what the local services read of it.
pub mod Sending
pub mod Inbound
pub mod Claims
mod Tests
use appletalk.Prelude.{ℕ, Bool, true, false, any, Option, none, some, List, [], ◌∷◌}
use appletalk.Wire.{Name, Addr}
use appletalk.Wire.Frame.{MacAddr}
use appletalk.Router.Table.Listings.{eq_ignore_ascii_case}

pub data Kind : Type 0 where
  ether : MacAddr → Kind
  ltoudp tashtalk : Kind

pub record Claim : Type 0 where
  pub node : ℕ
  pub tries : ℕ
  pub next : ℕ
  pub attempt : ℕ

pub record Port : Type 0 where
  pub id : ℕ
  pub name : Name
  pub kind : Kind
  pub range : ℕ × ℕ
  pub zones : List Name
  pub node : Option ℕ
  pub amt : List (Addr × MacAddr)
  pub claim : Claim

unfoldable pub is_extended : Kind → Bool
is_extended (ether mac) = true
is_extended Kind.ltoudp = false
is_extended Kind.tashtalk = false

unfoldable pub extended : Port → Bool
unfolding is_extended
extended p = is_extended p.kind

-- A port's own node sits on the first network of its range.
unfoldable pub port_addr : Port → Option Addr
port_addr p = elim p.node [
  | none ↦ none
  | some node ↦ some (record { net = p.range.0; node = node })
]

unfoldable pub default_zone : Port → Name
default_zone p = elim p.zones [ [] ↦ [] | zone ∷ zones ↦ zone ]

unfoldable pub has_zone : Port → Name → Bool
has_zone p z = any (λ ours. eq_ignore_ascii_case ours z) p.zones
