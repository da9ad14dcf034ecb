-- ===== src/Router/Ports/Inbound.antt =====
-- src/router/ports.rs: a port's claim of its node, and the frames that come in. Time is in
-- milliseconds, and the hash that seeds a candidate is a parameter.
use appletalk.Prelude.{
  ℕ, ◌+◌, ◌-◌, ◌%◌, Bool, false, not, ◌&&◌, ◌||◌, decide, Option, none, some, List, [], ◌∷◌, ◌==◌,
  leb, ltb, is_some, if◌then◌else◌,
}
use appletalk.Prelude.Maps.{insert}
use appletalk.Wire.{Name, Addr, Addr-discrete}
use appletalk.Wire.Aarp as Aarp
use appletalk.Wire.Ddp as Ddp
use appletalk.Wire.Frame.{MacAddr}
use appletalk.Wire.Frame as Frame
use appletalk.Wire.Llap.{Llap, control, llap_enq, llap_ack, llap_short_ddp, llap_long_ddp}
use appletalk.Wire.Packet as Packet
use appletalk.Router.Actions.{Action, to_ether, to_llap, set_node, log, port_claimed, address_taken}
use appletalk.Router.Ports.{Port, Kind, ether}
use appletalk.Router.Ports.Sending.{frame, broadcast_mac, MacAddr-discrete}

abbrev pub probe_tries : ℕ
probe_tries = 10

abbrev pub probe_interval : ℕ
probe_interval = 200

abbrev pub enq_tries : ℕ
enq_tries = 8

abbrev pub enq_interval : ℕ
enq_interval = 250

abbrev pub no_mac : MacAddr
no_mac = record { m0 = 0; m1 = 0; m2 = 0; m3 = 0; m4 = 0; m5 = 0 }

unfoldable pub probe : Addr → MacAddr → Aarp.Aarp
probe addr mac = record { op = 3; src_hw = mac; src = addr; dst_hw = no_mac; dst = addr }

unfoldable pub aarp_response : Addr → MacAddr → Addr → MacAddr → Aarp.Aarp
aarp_response ours our_mac to to_mac = record {
  op = 2;
  src_hw = our_mac;
  src = ours;
  dst_hw = to_mac;
  dst = to;
}

pub data AarpAction : Type 0 where
  conflict : AarpAction
  answer_to : MacAddr → AarpAction
  ignored : AarpAction

abbrev pub same_addr : Addr → Addr → Bool
same_addr a b = decide (Addr-discrete a b)

abbrev pub same_mac : MacAddr → MacAddr → Bool
same_mac a b = decide (MacAddr-discrete a b)

-- What an AARP packet means for our address; a node that probes answers nothing.
unfoldable pub aarp_action : Aarp.Aarp → Addr → MacAddr → Bool → AarpAction
aarp_action a ours our_mac probing =
    if a.op == 2 && same_addr a.src ours
    then conflict
    else if a.op == 3 && (same_addr a.src ours && not (same_mac a.src_hw our_mac))
    then (if probing then conflict else answer_to a.src_hw)
    else if a.op == 1 && (same_addr a.dst ours && not probing)
    then answer_to a.src_hw
    else ignored

-- A probe's address is only tentative.
unfoldable pub glean : MacAddr → Packet.Body → List (Addr × MacAddr) → List (Addr × MacAddr)
glean from (Packet.aarp a) amt = if a.op == 3 then amt else insert Addr-discrete a.src a.src_hw amt
glean from (Packet.ddp d body) amt = insert Addr-discrete d.src from amt
glean from Packet.Body.unknown amt = amt

-- The first node that may be claimed, and how many there are.
unfoldable pub id_range : Kind → ℕ × ℕ
id_range (ether mac) = (1, 253)
id_range Kind.ltoudp = (128, 127)
id_range Kind.tashtalk = (128, 127)

unfoldable pub candidate : Kind → ℕ → ℕ
unfolding id_range
candidate kind seed = (id_range kind).0 + seed % (id_range kind).1

unfoldable pub next_node : Kind → ℕ → ℕ
unfolding id_range
next_node kind node = (id_range kind).0 + (node - (id_range kind).0 + 1) % (id_range kind).1

unfoldable pub claiming_node : Port → ℕ
claiming_node p = elim p.node [ none ↦ p.claim.node | some node ↦ node ]

unfoldable pub schedule : Kind → ℕ × ℕ
schedule (ether mac) = (probe_tries, probe_interval)
schedule Kind.ltoudp = (enq_tries, enq_interval)
schedule Kind.tashtalk = (enq_tries, enq_interval)

-- The node is ours; TashTalk's firmware answers for it from here on.
unfoldable pub set_nodes : Kind → Port → List Action
set_nodes (ether mac) p = []
set_nodes Kind.ltoudp p = []
set_nodes Kind.tashtalk p = set_node p.id (some p.claim.node) ∷ []

unfoldable pub claimed : Port → Port × List Action
unfolding set_nodes
claimed p = (
  record p { node = some p.claim.node },
  log (port_claimed p.name (record { net = p.range.0; node = p.claim.node })) ∷ set_nodes p.kind p,
)

unfoldable pub ask_for : Kind → Port → Action
unfolding probe frame control
ask_for (ether mac) p = to_ether p.id (
    frame mac broadcast_mac Frame.aarp
      (Aarp.encode (probe (record { net = p.range.0; node = p.claim.node }) mac)))
ask_for Kind.ltoudp p = to_llap p.id (control p.claim.node p.claim.node llap_enq)
ask_for Kind.tashtalk p = to_llap p.id (control p.claim.node p.claim.node llap_enq)

-- A probe or an ENQ an interval, then the address after a last interval of silence.
unfoldable pub tick : ℕ → Port → Port × List Action
unfolding schedule claimed ask_for
tick now p =
    let (tries, interval) = schedule p.kind in
    if is_some p.node || ltb now p.claim.next
    then (p, [])
    else if leb tries p.claim.tries
    then claimed p
    else (
      record p { claim = record p.claim { tries = p.claim.tries + 1; next = now + interval } },
      ask_for p.kind p ∷ [],
    )

-- What a port makes of a frame.
pub data Inbound : Type 0 where
  ddp : Ddp.Ddp → Inbound
  handled : Inbound
  ignore : Inbound

module _ (seed : ℕ → Kind → ℕ → ℕ → ℕ) where
  -- Another candidate than the one that was refused.
  unfoldable pub restart : ℕ → Port → Port
  unfolding candidate next_node
  restart now p =
      let attempt = p.claim.attempt + 1 in
      let node = candidate p.kind (seed p.id p.kind now attempt) in
      record p {
        claim = record {
          node = if node == p.claim.node then next_node p.kind node else node;
          tries = 0;
          next = now;
          attempt = attempt;
        };
      }

  unfoldable pub new_port : ℕ → Name → Kind → ℕ × ℕ → List Name → ℕ → Port
  unfolding candidate
  new_port id name kind range zones now = record {
    id = id;
    name = name;
    kind = kind;
    range = range;
    zones = zones;
    node = none;
    amt = [];
    claim = record {
      node = candidate kind (seed id kind now 0);
      tries = 0;
      next = now;
      attempt = 0;
    };
  }

  unfoldable pub heard_aarp : MacAddr → Aarp.Aarp → ℕ → Port → Port × List Action
  unfolding aarp_action aarp_response claiming_node restart frame
  heard_aarp mac a now p =
      let ours : Addr = record { net = p.range.0; node = claiming_node p } in
      elim (aarp_action a ours mac (not (is_some p.node))) [
        | conflict ↦
            if not (is_some p.node)
            then (restart now p, [])
            else (p, log (address_taken p.name ours a.src_hw) ∷ [])
        | answer_to to ↦ (
          p,
          to_ether p.id (frame mac to Frame.aarp (Aarp.encode (aarp_response ours mac a.src to)))
              ∷ [],
        )
        | ignored ↦ (p, [])
      ]

  unfoldable pub inbound_body : MacAddr → Packet.Body → ℕ → Port → Inbound × Port × List Action
  unfolding heard_aarp
  inbound_body mac (Packet.aarp a) now p =
      let (p', acts) = heard_aarp mac a now p in (handled, p', acts)
  inbound_body mac (Packet.ddp d body) now p = (ddp d, p, [])
  inbound_body mac Packet.Body.unknown now p = (ignore, p, [])

  unfoldable pub inbound_on : Kind → Packet.Packet → ℕ → Port → Inbound × Port × List Action
  unfolding inbound_body glean
  inbound_on (ether mac) pkt now p =
      if same_mac pkt.frame.src mac
      then (ignore, p, [])
      else inbound_body mac pkt.body now (record p { amt = glean pkt.frame.src pkt.body p.amt })
  inbound_on Kind.ltoudp pkt now p = (ignore, p, [])
  inbound_on Kind.tashtalk pkt now p = (ignore, p, [])

  unfoldable pub inbound_ether : Packet.Packet → ℕ → Port → Inbound × Port × List Action
  unfolding inbound_on
  inbound_ether pkt now p = inbound_on p.kind pkt now p

  -- The answer to an ENQ for our own node; TashTalk's firmware gives its own.
  unfoldable pub acknowledge : Kind → ℕ → Port → List Action
  unfolding control
  acknowledge (ether mac) node p = to_llap p.id (control node node llap_ack) ∷ []
  acknowledge Kind.ltoudp node p = to_llap p.id (control node node llap_ack) ∷ []
  acknowledge Kind.tashtalk node p = []

  abbrev pub lifted : Option Ddp.Ddp → Inbound
  lifted none = ignore
  lifted (some d) = ddp d

  abbrev pub holds_node : Port → ℕ → Bool
  holds_node p n = elim p.node [ none ↦ false | some node ↦ node == n ]

  unfoldable pub inbound_llap : Llap → ℕ → Port → Inbound × Port × List Action
  unfolding claiming_node restart acknowledge
  inbound_llap l now p =
      let ours = claiming_node p in
      if not (is_some p.node) && ((l.typ == llap_enq || l.typ == llap_ack) && l.dst == ours)
      then (handled, restart now p, [])
      else if l.typ == llap_enq && holds_node p l.dst
      then (handled, p, acknowledge p.kind l.dst p)
      else if l.typ == llap_enq
      then (handled, p, [])
      else if l.src == ours && is_some p.node
      then (ignore, p, [])
      else if l.typ == llap_ack
      then (handled, p, [])
      else if l.typ == llap_short_ddp
      then (lifted (Ddp.from_short l.bytes p.range.0 l.dst l.src), p, [])
      else if l.typ == llap_long_ddp
      then (lifted (Ddp.parse l.bytes), p, [])
      else (ignore, p, [])
