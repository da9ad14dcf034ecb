-- ===== src/Router/Aurp/Invariant/Peers.antt =====
-- Every peer that the tunnel ever has keeps what holds of a peer (src/router/aurp.rs).
use appletalk.Prelude.{
  ℕ, ◌-◌, ◌≡◌, refl, inl, inr, Bool, true, false, not, none, some, List, [], ◌∷◌, ◌==◌, leb, ltb,
  any, filter, map, All, All-In, find-In, length, Bool-cases, Option-cases, if◌then◌else◌,
}
use appletalk.Wire.{Name}
use appletalk.Wire.Aurp.{Di, Aurp, data_packet, EventTuple}
use appletalk.Wire.Aurp.Parse as AurpParse
use appletalk.Router.States.{Receiver, Sender}
use appletalk.Router.Actions.{Action, log, unknown_peer, too_many_peers}
use appletalk.Router.Table.{Tables, RouteChange}
use appletalk.Router.Aurp.{Peer, Turn, new_peer, succ, is_sender, send}
use appletalk.Router.Aurp.Events.{queue, event_of}
use appletalk.Router.Aurp.Sending.{send_rd}
use appletalk.Router.Aurp.Dialog.{routing, report, tick_peer}
use appletalk.Router.Aurp.Peers.{
  Outcome, Peers, new_peers, find_peer, put_peer, resolved, handle, admit, refuse, packet,
  tick_peers, tick, kept, is_named, turn, named_by, queue_for, route_changed, max_open_peers,
  log_unknown, recent, reconnect_scan, zi_rerequest_every,
}
use appletalk.Router.Aurp.Operator.{each, shutdown, ping, ping_from}
use appletalk.Router.Aurp.Invariant.{IsPeer, other_side-IsPeer}
use appletalk.Router.Aurp.Invariant.Sending.{send_rd-IsPeer}
use appletalk.Router.Aurp.Invariant.Dialog.{new_peer-IsPeer, routing-IsPeer, tick_peer-IsPeer}

-- All that happens to the peers of the tunnel: packets, timers, resolved names, changes of the tables,
-- and the operator's commands.
pub data IsReachable : Peers → Type 0 where
  made :
      (seed : ℕ) (local : Di) (open_peering : Bool) (configured : List Name) (now : ℕ)
      → IsReachable (new_peers seed local open_peering configured now)
  received :
      (from : ℕ) (bytes : List ℕ) (tables : Tables) (now : ℕ) (ps : Peers)
      → IsReachable ps
      → IsReachable (packet from bytes tables now ps).peers
  ticked :
      (tables : Tables) (now : ℕ) (ps : Peers)
      → IsReachable ps
      → IsReachable (tick tables now ps).peers
  named :
      (name : Name) (addr now : ℕ) (ps : Peers)
      → IsReachable ps
      → IsReachable (resolved name addr now ps)
  changed :
      (cs : List RouteChange) (tables : Tables) (ps : Peers)
      → IsReachable ps
      → IsReachable (record ps { peers = route_changed cs tables ps.peers })
  shut_down :
      (now : ℕ) (tables : Tables) (ps : Peers)
      → IsReachable ps
      → IsReachable (record ps { peers = (shutdown now tables ps.peers).0 })
  pinged :
      (now : ℕ) (tables : Tables) (ps : Peers)
      → IsReachable ps
      → IsReachable (record ps { peers = (ping now tables ps.peers).0 })

put_peer-All : (p : Peer) (ps : List Peer) → IsPeer p → All IsPeer ps → All IsPeer (put_peer p ps)
unfolding put_peer
put_peer-All p [] v vs = (v, tt)
put_peer-All p (q ∷ ps) v vs = elim (Bool-cases (p.addr == q.addr)) [
  | inl e ↦ rw e (v, vs.1)
  | inr e ↦ elim (Bool-cases (ltb p.addr q.addr)) [
    | inl f ↦ rw (e, f) (v, vs)
    | inr f ↦ rw (e, f) (vs.0, put_peer-All p ps v vs.1)
  ]
]

filter-All : (f : Peer → Bool) (ps : List Peer) → All IsPeer ps → All IsPeer (filter f ps)
filter-All f [] vs = tt
filter-All f (p ∷ ps) vs = elim (Bool-cases (f p)) [
  | inl e ↦ rw e (vs.0, filter-All f ps vs.1)
  | inr e ↦ rw e (filter-All f ps vs.1)
]

find_peer-IsPeer :
    (addr : ℕ) (ps : List Peer) (p : Peer) → All IsPeer ps → find_peer addr ps ≡ some p → IsPeer p
unfolding find_peer
find_peer-IsPeer addr ps p vs e = All-In IsPeer p ps vs (find-In (λ q. q.addr == addr) ps p e).0

-- The same peer under another name, seen again or with other events to tell.
renamed-IsPeer :
    (p q : Peer)
    → IsPeer p
    → q.sender ≡ p.sender
    → q.outstanding ≡ p.outstanding
    → q.pages ≡ p.pages
    → q.seq_send ≡ p.seq_send
    → q.seq_recv ≡ p.seq_recv
    → IsPeer q
renamed-IsPeer p q v s o g n r = other_side-IsPeer p q v s o g n (rw r v.recv_number)

handle-All :
    (from : ℕ) (pkt : Aurp) (tables : Tables) (now : ℕ) (ps : Peers) (p : Peer)
    → IsPeer p
    → All IsPeer ps.peers
    → All IsPeer (handle from pkt tables now ps p).peers.peers
unfolding handle report
handle-All from (data_packet dh ddp) tables now ps p v vs =
    put_peer-All (record p { di = named_by dh.src from; last_heard = now }) ps.peers
      (renamed-IsPeer p _ v refl refl refl refl refl) vs
handle-All from (Aurp.routing dh conn seq cmd) tables now ps p v vs =
    let was = record p { di = named_by dh.src from } in
    put_peer-All (routing conn seq cmd now (turn was tables)).peer ps.peers
      (routing-IsPeer conn seq cmd now (turn was tables)
        (renamed-IsPeer p was v refl refl refl refl refl))
      vs

refuse-All :
    (from : ℕ) (line : Action) (tables : Tables) (now : ℕ) (ps : Peers)
    → All IsPeer ps.peers
    → All IsPeer (refuse from line tables now ps).peers.peers
unfolding refuse log_unknown
refuse-All from line tables now ps vs =
    elim (Bool-cases (any (λ e. e.0 == from) (recent now ps.logged))) [
      | inl e ↦ rw e vs
      | inr e ↦ rw e vs
    ]

if_All :
    (b : Bool) (x y : Outcome)
    → All IsPeer x.peers.peers
    → All IsPeer y.peers.peers
    → All IsPeer (if b then x else y).peers.peers
if_All true x y vx vy = vx
if_All false x y vx vy = vy

admit-All :
    (from : ℕ) (pkt : Aurp) (tables : Tables) (now : ℕ) (ps : Peers)
    → All IsPeer ps.peers
    → All IsPeer (admit from pkt tables now ps).peers.peers
unfolding admit
admit-All from pkt tables now ps vs =
    let p = new_peer from none ps.next_conn ps.local now in
    let v = new_peer-IsPeer from none ps.next_conn ps.local now in
    let ps' = record ps { peers = put_peer p ps.peers; next_conn = succ ps.next_conn } in
    let many = refuse from (log (too_many_peers from)) tables now ps in
    if_All (not ps.open_peering) (refuse from (log (unknown_peer from)) tables now ps)
      (if leb max_open_peers (length ps.peers) then many else handle from pkt tables now ps' p)
      (refuse-All from (log (unknown_peer from)) tables now ps vs)
      (if_All (leb max_open_peers (length ps.peers)) many (handle from pkt tables now ps' p)
        (refuse-All from (log (too_many_peers from)) tables now ps vs)
        (handle-All from pkt tables now ps' p v (put_peer-All p ps.peers v vs)))

packet-All :
    (from : ℕ) (bytes : List ℕ) (tables : Tables) (now : ℕ) (ps : Peers)
    → All IsPeer ps.peers
    → All IsPeer (packet from bytes tables now ps).peers.peers
unfolding packet
packet-All from bytes tables now ps vs = elim (Option-cases (AurpParse.parse bytes)) [
  | inl e ↦ simp (e, packet) vs
  | inr (pkt, e) ↦ elim (Option-cases (find_peer from ps.peers)) [
    | inl f ↦ simp (e, f, packet) (admit-All from pkt tables now ps vs)
    | inr (p, f) ↦
        simp (e, f, packet)
          (handle-All from pkt tables now ps p (find_peer-IsPeer from ps.peers p vs f) vs)
  ]
]

tick_peers-All :
    (scan zi : Bool) (now : ℕ) (ps : List Peer) (tables : Tables)
    → All IsPeer ps
    → All IsPeer (tick_peers scan zi now ps tables).peers
unfolding tick_peers
tick_peers-All scan zi now [] tables vs = tt
tick_peers-All scan zi now (p ∷ ps) tables vs = (
  tick_peer-IsPeer scan zi now (turn p tables) vs.0,
  tick_peers-All scan zi now ps (tick_peer scan zi now (turn p tables)).tables vs.1,
)

resolved-All :
    (name : Name) (addr now : ℕ) (ps : Peers)
    → All IsPeer ps.peers
    → All IsPeer (resolved name addr now ps).peers
unfolding resolved
resolved-All name addr now ps vs = elim (Option-cases (find_peer addr ps.peers)) [
  | inl e ↦
      simp (e, resolved)
        (put_peer-All _ _ (new_peer-IsPeer addr (some name) ps.next_conn ps.local now)
          (filter-All (λ p. not (is_named name p.configured)) ps.peers vs))
  | inr (p, e) ↦
      simp (e, resolved)
        (put_peer-All (record p { configured = some name }) ps.peers
          (renamed-IsPeer p _ (find_peer-IsPeer addr ps.peers p vs e) refl refl refl refl refl) vs)
]

queue_for-IsPeer : (e : EventTuple) (p : Peer) → IsPeer p → IsPeer (queue_for e p)
unfolding queue_for
queue_for-IsPeer e p v = elim (Bool-cases (is_sender Sender.unconnected p)) [
  | inl f ↦ simp (f, queue_for) v
  | inr f ↦
      simp (f, queue_for)
        (renamed-IsPeer p (record p { pending = queue p.pending e }) v refl refl refl refl refl)
]

map-All :
    (f : Peer → Peer) (ps : List Peer)
    → ((p : Peer) → IsPeer p → IsPeer (f p))
    → All IsPeer ps
    → All IsPeer (map f ps)
map-All f [] h vs = tt
map-All f (p ∷ ps) h vs = (h p vs.0, map-All f ps h vs.1)

route_changed-All :
    (cs : List RouteChange) (tables : Tables) (ps : List Peer)
    → All IsPeer ps
    → All IsPeer (route_changed cs tables ps)
unfolding route_changed
route_changed-All [] tables ps vs = vs
route_changed-All (c ∷ cs) tables ps vs = elim (Option-cases (event_of tables c)) [
  | inl e ↦ simp (e, route_changed) (route_changed-All cs tables ps vs)
  | inr (ev, e) ↦
      simp (e, route_changed)
        (route_changed-All cs tables _ (map-All (queue_for ev) ps (queue_for-IsPeer ev) vs))
]

each-All :
    (f : Turn → Turn) (tables : Tables) (ps : List Peer)
    → ((t : Turn) → IsPeer t.peer → IsPeer (f t).peer)
    → All IsPeer ps
    → All IsPeer (each f tables ps).0
unfolding each
each-All f tables [] h vs = tt
each-All f tables (p ∷ ps) h vs = (h (turn p tables) vs.0, each-All f tables ps h vs.1)

ping_from-IsPeer :
    (r : Receiver) (now : ℕ) (t : Turn) → IsPeer t.peer → IsPeer (ping_from r now t).peer
unfolding ping_from send
ping_from-IsPeer Receiver.unconnected now t v = v
ping_from-IsPeer Receiver.wait_open_rsp now t v = v
ping_from-IsPeer Receiver.wait_ri_rsp now t v = v
ping_from-IsPeer Receiver.connected now t v = renamed-IsPeer t.peer _ v refl refl refl refl refl
ping_from-IsPeer Receiver.wait_tickle_ack now t v =
    renamed-IsPeer t.peer _ v refl refl refl refl refl

-- After any sequence of packets from any address, timer ticks, resolved names, route changes,
-- shutdowns and pings, from the start on, every peer is consistent: a packet is outstanding exactly in
-- the sender's three waiting states, pages are left only while an export is under way, the outstanding
-- packet carries the last number sent and was sent one to five times, and the two sequence numbers fit
-- in 16 bits, that of the receiver never being 0.
pub IsReachable-IsPeer : (ps : Peers) → IsReachable ps → All IsPeer ps.peers
unfolding new_peers tick shutdown ping
IsReachable-IsPeer _ (made seed local open_peering configured now) = tt
IsReachable-IsPeer _ (received from bytes tables now ps r) =
    packet-All from bytes tables now ps (IsReachable-IsPeer ps r)
IsReachable-IsPeer _ (ticked tables now ps r) = filter-All (kept now) _ (
    tick_peers-All (leb reconnect_scan (now - ps.last_scan))
      (leb zi_rerequest_every (now - ps.last_zi)) now ps.peers tables (IsReachable-IsPeer ps r))
IsReachable-IsPeer _ (named name addr now ps r) =
    resolved-All name addr now ps (IsReachable-IsPeer ps r)
IsReachable-IsPeer _ (changed cs tables ps r) =
    route_changed-All cs tables ps.peers (IsReachable-IsPeer ps r)
IsReachable-IsPeer _ (shut_down now tables ps r) =
    each-All (send_rd now) tables ps.peers (send_rd-IsPeer now) (IsReachable-IsPeer ps r)
IsReachable-IsPeer _ (pinged now tables ps r) =
    each-All (λ t. ping_from t.peer.receiver now t) tables ps.peers
      (λ t v. ping_from-IsPeer t.peer.receiver now t v) (IsReachable-IsPeer ps r)
