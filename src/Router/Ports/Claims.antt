-- ===== src/Router/Ports/Claims.antt =====
-- src/router/ports.rs: the node that a port asks for.
use appletalk.Prelude.{ℕ, ◌+◌, ◌≤◌, ◌≢◌, sym, ◌∙◌, inl, inr, ◌==◌, arith, Bool-cases, ==_iff}
use appletalk.Router.Ports.{Port, Kind, ether}
use appletalk.Router.Ports.Inbound.{restart, candidate, next_node}

-- EtherTalk keeps 0, 254 and 255; LocalTalk claims in the servers' range.
abbrev pub IsNode : Kind → ℕ → Type 0
IsNode (ether mac) node = (1 ≤ node) × (node ≤ 253)
IsNode Kind.ltoudp node = (128 ≤ node) × (node ≤ 254)
IsNode Kind.tashtalk node = (128 ≤ node) × (node ≤ 254)

candidate-IsNode : (kind : Kind) (seed : ℕ) → IsNode kind (candidate kind seed)
unfolding candidate
candidate-IsNode (ether mac) seed = (omega arith, omega arith)
candidate-IsNode Kind.ltoudp seed = (omega arith, omega arith)
candidate-IsNode Kind.tashtalk seed = (omega arith, omega arith)

next_node-IsNode : (kind : Kind) (node : ℕ) → IsNode kind (next_node kind node)
unfolding next_node
next_node-IsNode (ether mac) node = (omega arith, omega arith)
next_node-IsNode Kind.ltoudp node = (omega arith, omega arith)
next_node-IsNode Kind.tashtalk node = (omega arith, omega arith)

next_node_moves : (kind : Kind) (node : ℕ) → IsNode kind node → next_node kind node ≢ node
unfolding next_node
next_node_moves (ether mac) node (l, u) = λ e. omega arith
next_node_moves Kind.ltoudp node (l, u) = λ e. omega arith
next_node_moves Kind.tashtalk node (l, u) = λ e. omega arith

-- After a restart a port asks for a node in its link's range, whatever the seed, and for another one
-- than the one that was just refused.
pub restart_lem :
    (seed : ℕ → Kind → ℕ → ℕ → ℕ) (now : ℕ) (p : Port)
    → IsNode p.kind (restart seed now p).claim.node
      × ((restart seed now p).claim.node ≢ p.claim.node)
unfolding restart
restart_lem seed now p =
    let node = candidate p.kind (seed p.id p.kind now (p.claim.attempt + 1)) in
    let v = candidate-IsNode p.kind (seed p.id p.kind now (p.claim.attempt + 1)) in
    elim (Bool-cases (node == p.claim.node)) [
      | inl e ↦ rw e (
        next_node-IsNode p.kind node,
        λ q. next_node_moves p.kind node v (q ∙ sym ((==_iff node p.claim.node).0 e)),
      )
      | inr e ↦ rw e (v, λ q. absurd (let z = (==_iff node p.claim.node).1 q in cc))
    ]
