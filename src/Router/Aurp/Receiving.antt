-- ===== src/Router/Aurp/Receiving.antt =====
-- src/router/aurp.rs: our side of the connection that we opened, as the data receiver.
use appletalk.Prelude.{
  ℕ, ◌+◌, ◌-◌, Bool, true, false, not, ◌||◌, Option, none, some, List, [], ◌∷◌, ◌++◌, map, filter,
  ◌==◌, leb, ltb, take, drop, zero, suc, length, is_some_and, if◌then◌else◌,
}
use appletalk.Prelude.Integers.{ℤ, pos, negsuc}
use appletalk.Wire.{Name}
use appletalk.Wire.Rtmp.{NetworkTuple}
use appletalk.Wire.Aurp.{Cmd, ri_req, ri_ack, zi_req, open_req, tickle, EventTuple, all_sui}
use appletalk.Router.{peer}
use appletalk.Router.States.{
  Receiver, Sender, open_rsp_error, router_down, sequence_ahead, no_answer, tickles_unanswered,
}
use appletalk.Router.Table.{Tables, Changed, best, is_port}
use appletalk.Router.Table.Settle.{target_eq}
use appletalk.Router.Table.Updates.{learn, remove_target}
use appletalk.Router.Table.Listings.{add_zones, zoneless}
use appletalk.Router.Aurp.{
  Turn, fresh, dup, ahead, stale, check_seq, succ, send, send_sequenced, close_receiver,
  close_sender, receiver_open, is_sender, no_next, retry, retries, tickle_retries, last_heard_limit,
}
use appletalk.Router.Aurp.Events.{apply, null_upd, na}
use appletalk.Router.Aurp.Sending.{set_reason, set_sender}

-- A change of the tables, its reports after those before it.
abbrev pub change : (Tables → Changed) → Turn → Turn
change f t = record t { tables = (f t.tables).0; chs = t.chs ++ (f t.tables).1 }

abbrev pub hear : ℕ → Turn → Turn
hear now t = record t { peer = record t.peer { last_heard = now } }

-- A tuple at 15 hops or more is not for us.
unfoldable pub learn_all : ℕ → ℕ → List NetworkTuple → Tables → Changed
learn_all addr now [] t = (t, [])
learn_all addr now (n ∷ ns) t =
    let first = if ltb n.distance 15 then learn t n (peer addr) no_next now else (t, []) in
    let rest = learn_all addr now ns first.0 in (rest.0, first.1 ++ rest.1)

unfoldable pub apply_all : ℕ → ℕ → List EventTuple → Tables → Changed
unfolding apply
apply_all addr now [] t = (t, [])
apply_all addr now (e ∷ es) t =
    let first = apply addr e t now in
    let rest = apply_all addr now es first.0 in (rest.0, first.1 ++ rest.1)

-- The number is the one expected: the next one is expected from here.
abbrev pub expect_after : ℕ → Turn → Turn
expect_after seq t = record t { peer = record t.peer { seq_recv = succ seq } }

abbrev pub lose_sync : Turn → Turn
lose_sync t = set_reason sequence_ahead (record t { peer = close_receiver t.peer })

unfoldable pub on_ri_rsp : ℕ → ℕ → Bool → List NetworkTuple → ℕ → Turn → Turn
unfolding learn_all send close_receiver
on_ri_rsp conn seq last tuples now t = elim (check_seq t.peer seq) [
  | fresh ↦
      let t' =
        send conn seq (ri_ack true)
          (expect_after seq (change (learn_all t.peer.addr now tuples) (hear now t))) in
      if last then record t' { peer = record t'.peer { receiver = Receiver.connected } } else t'
  | dup ↦ send conn seq (ri_ack true) (hear now t)
  | ahead ↦ lose_sync (hear now t)
  | stale ↦ hear now t
]

abbrev pub any_na : List EventTuple → Bool
any_na [] = false
any_na (e ∷ es) = e.code == na || any_na es

unfoldable pub on_ri_upd : ℕ → ℕ → List EventTuple → ℕ → Turn → Turn
unfolding apply_all send close_receiver
on_ri_upd conn seq events now t = elim (check_seq t.peer seq) [
  | fresh ↦
      send conn seq (ri_ack (any_na events))
        (expect_after seq (change (apply_all t.peer.addr now events) (hear now t)))
  | dup ↦ send conn seq (ri_ack true) (hear now t)
  | ahead ↦ lose_sync (hear now t)
  | stale ↦ hear now t
]

unfoldable pub on_rd : ℕ → ℕ → ℤ → Turn → Turn
unfolding send close_receiver close_sender
on_rd conn seq code t =
    let t' = change (λ u. remove_target u (peer t.peer.addr)) (send conn seq (ri_ack false) t) in
    set_reason (router_down code) (record t' { peer = close_sender (close_receiver t'.peer) })

unfoldable pub on_open_rsp : ℤ → ℕ → Turn → Turn
unfolding send close_receiver
on_open_rsp (negsuc n) now t =
    set_reason (open_rsp_error (negsuc n)) (record t { peer = close_receiver t.peer })
on_open_rsp (pos rate) now t = send t.peer.conn_local 0 (ri_req all_sui) (record t {
  peer = record t.peer {
    receiver = Receiver.wait_ri_rsp;
    seq_recv = 1;
    recv_tries = 1;
    recv_at = now;
    last_heard = now;
  };
})

-- Names by network, the networks in the order in which they come first.
unfoldable pub push_name : ℕ → Name → List (ℕ × List Name) → List (ℕ × List Name)
push_name net name [] = (net, name ∷ []) ∷ []
push_name net name ((n, names) ∷ rest) =
    let pushed = push_name net name rest in
    if n == net then (n, names ++ name ∷ []) ∷ rest else (n, names) ∷ pushed

unfoldable pub group_names : List (ℕ × Name) → List (ℕ × List Name) → List (ℕ × List Name)
unfolding push_name
group_names [] groups = groups
group_names ((net, name) ∷ zones) groups = group_names zones (push_name net name groups)

-- A peer has nothing to tell about a cable of our own.
unfoldable pub add_group : Option ℕ → ℕ × List Name → Tables → Changed
add_group extended (net, names) t =
    if is_some_and (best t net) (λ r. is_port r.target)
    then (t, [])
    else add_zones t net names extended

unfoldable pub add_groups : Option ℕ → List (ℕ × List Name) → Tables → Changed
unfolding add_group
add_groups extended [] t = (t, [])
add_groups extended (g ∷ gs) t =
    let first = add_group extended g t in
    let rest = add_groups extended gs first.0 in (rest.0, first.1 ++ rest.1)

unfoldable pub on_zi_rsp : Option ℕ → List (ℕ × Name) → ℕ → Turn → Turn
unfolding add_groups group_names
on_zi_rsp extended zones now t = change (add_groups extended (group_names zones [])) (hear now t)

unfoldable pub on_tickle_ack : ℕ → Turn → Turn
on_tickle_ack now t = record t {
  peer = record t.peer {
    receiver = Receiver.connected;
    recv_tries = 0;
    last_heard = now;
    ping_rtt = elim t.peer.pinged_at [ none ↦ t.peer.ping_rtt | some at ↦ some (now - at) ];
    pinged_at = none;
  };
}

abbrev pub try_again : ℕ → Turn → Turn
try_again now t = record t {
  peer = record t.peer { recv_tries = t.peer.recv_tries + 1; recv_at = now };
}

unfoldable pub send_tickle : ℕ → Turn → Turn
unfolding send
send_tickle now t = send t.peer.conn_local 0 tickle (record t {
  peer = record t.peer { receiver = Receiver.wait_tickle_ack; recv_tries = 1; recv_at = now };
})

-- No answer to an Open-Req or an RI-Req.
unfoldable pub ask_again : Cmd → ℕ → Turn → Turn
unfolding send close_receiver
ask_again cmd now t =
    if leb retries t.peer.recv_tries
    then set_reason no_answer (record t { peer = close_receiver t.peer })
    else send t.peer.conn_local 0 cmd (try_again now t)

-- The peer is dead as a sender: its routes go, and the other connection is probed.
unfoldable pub drop_peer : ℕ → Turn → Turn
unfolding send_sequenced close_receiver
drop_peer now t =
    let t' = change (λ u. remove_target u (peer t.peer.addr)) t in
    let t'' = set_reason tickles_unanswered (record t' { peer = close_receiver t'.peer }) in
    if is_sender Sender.connected t''.peer
    then set_sender Sender.wait_ri_upd_ack (send_sequenced null_upd [] now t'')
    else t''

unfoldable pub tickle_again : ℕ → Turn → Turn
unfolding drop_peer send
tickle_again now t =
    if leb tickle_retries t.peer.recv_tries
    then drop_peer now t
    else send t.peer.conn_local 0 tickle (try_again now t)

unfoldable pub receiver_timers_at : Receiver → ℕ → Turn → Turn
unfolding ask_again send_tickle tickle_again
receiver_timers_at Receiver.unconnected now t = t
receiver_timers_at Receiver.wait_open_rsp now t =
    if leb retry (now - t.peer.recv_at) then ask_again (open_req all_sui 1 []) now t else t
receiver_timers_at Receiver.wait_ri_rsp now t =
    if leb retry (now - t.peer.recv_at) then ask_again (ri_req all_sui) now t else t
receiver_timers_at Receiver.connected now t =
    if ltb last_heard_limit (now - t.peer.last_heard) then send_tickle now t else t
receiver_timers_at Receiver.wait_tickle_ack now t =
    if leb retry (now - t.peer.recv_at) then tickle_again now t else t

unfoldable pub receiver_timers : ℕ → Turn → Turn
unfolding receiver_timers_at
receiver_timers now t = receiver_timers_at t.peer.receiver now t

-- `nets.chunks(n)`: a chunk has one network at least, so a unit of fuel a network is enough.
unfoldable pub chunks : ℕ → ℕ → List ℕ → List (List ℕ)
chunks fuel n [] = []
chunks zero n (x ∷ xs) = []
chunks (suc fuel) n (x ∷ xs) = take n (x ∷ xs) ∷ chunks fuel n (drop n (x ∷ xs))

unfoldable pub ask_zones : ℕ → List (List ℕ) → Turn → Turn
unfolding send
ask_zones conn [] t = t
ask_zones conn (c ∷ cs) t = ask_zones conn cs (send conn 0 (zi_req c) t)

abbrev pub zones_wanted : Turn → List ℕ
zones_wanted t =
    map (λ r. r.range.0) (filter (λ r. target_eq r.target (peer t.peer.addr)) (zoneless t.tables))

-- Two bytes a network, behind the subcode.
unfoldable pub zi_rerequest : Turn → Turn
unfolding ask_zones chunks
zi_rerequest t =
    if not (receiver_open t.peer)
    then t
    else ask_zones t.peer.conn_local (chunks (length (zones_wanted t)) 699 (zones_wanted t)) t
