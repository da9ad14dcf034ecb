-- ===== src/Router/Aurp/Tests.antt =====
-- The peers of the tunnel at concrete peers and packets.
use appletalk.Prelude.{
  ℕ, ◌+◌, ◌≡◌, refl, inl, inr, true, false, decide, none, some, List, [], ◌∷◌, ◌++◌, arith, All,
}
use appletalk.Prelude.Integers.{negsuc}
use appletalk.Wire.Rtmp.{NetworkTuple}
use appletalk.Wire.Aurp.{routing, ip, EventTuple, open_req, open_rsp, tickle, all_sui}
use appletalk.Wire.Aurp.Encode.{encode}
use appletalk.Wire.Aurp.Parse.{parse}
use appletalk.Router.States.{Receiver, Sender, Receiver-discrete}
use appletalk.Router.Actions.{to_peer}
use appletalk.Router.Table.{new}
use appletalk.Router.Aurp.{Peer, Turn, Outstanding, close_sender, receiver_open}
use appletalk.Router.Aurp.Pages.{split_tuples}
use appletalk.Router.Aurp.Pages.Bounds.{joined, Fits, split_tuples_lem}
use appletalk.Router.Aurp.Events.{na, nd, ndc, queue, collapse}
use appletalk.Router.Aurp.Dialog as Dialog
use appletalk.Router.Aurp.Peers.{new_peers, packet, turn}
use appletalk.Router.Aurp.Invariant.{IsPeer}
use appletalk.Router.Aurp.Invariant.Peers.{made, received, IsReachable-IsPeer}
use appletalk.Router.Aurp.Delivery.{
  Message, update, deliver, ideal, Expects, InWindow, deliver-ideal,
}
use appletalk.Router.Aurp.Collapse.{
  believe, believe_all, queue_all, IsHistory, believe_all-queue_all,
}
use appletalk.Router.Aurp.Retries.{unanswered, repeats, unanswered_closes}
use appletalk.Router.Aurp.Strangers.{routing_other, refusal_read}

abbrev here : ℕ
here = 3221225985

abbrev there : ℕ
there = 3221225986

abbrev opening : List ℕ
opening = encode (routing (record { dst = ip here; src = ip there }) 9 0 (open_req all_sui 1 []))

-- A stranger's first packet, with open peering.
IsReachable-IsPeer_example :
    All IsPeer (packet there opening new 5 (new_peers 3 (ip here) true [] 0)).peers.peers
IsReachable-IsPeer_example =
    IsReachable-IsPeer (packet there opening new 5 (new_peers 3 (ip here) true [] 0)).peers
      (received there opening new 5 (new_peers 3 (ip here) true [] 0) (made 3 (ip here) true [] 0))

abbrev net : ℕ → NetworkTuple
net n = record { range = (n, n); extended = false; distance = 1 }

abbrev event : ℕ → ℕ → EventTuple
event code n = record { code = code; tuple = net n }

-- A peer of which we are the receiver on connection 7.
abbrev feeding : Peer
feeding = record {
  addr = there;
  configured = none;
  di = ip there;
  receiver = Receiver.connected;
  sender = Sender.connected;
  local = ip here;
  conn_local = 7;
  seq_recv = 1;
  last_heard = 0;
  recv_at = 0;
  recv_tries = 0;
  last_reconnect = none;
  conn_remote = 9;
  seq_send = 3;
  outstanding = none;
  pages = [];
  pending = [];
  last_update = 0;
  probing = false;
  pinged_at = none;
  ping_rtt = none;
}

abbrev stream : ℕ → Message
stream i = update (event na (6800 + i) ∷ [])

-- The first update comes twice, and once more after the second.
abbrev arrivals : List (ℕ × ℕ)
arrivals = (0, 1) ∷ (0, 11) ∷ (1, 12) ∷ (0, 13) ∷ []

feeding-Expects : Expects 7 0 (turn feeding new)
unfolding receiver_open Receiver-discrete decide
feeding-Expects = record { on_conn = refl; is_open = refl; expected = refl }

arrivals-InWindow : InWindow 0 arrivals
arrivals-InWindow =
    inl (refl, inr (omega arith, omega arith, inl (refl, inr (omega arith, omega arith, tt))))

deliver-ideal_example :
    (deliver 7 stream arrivals (turn feeding new)).tables ≡ ideal there stream 0 arrivals new
deliver-ideal_example =
    deliver-ideal 7 0 stream arrivals (turn feeding new) feeding-Expects arrivals-InWindow

-- A network comes, moves and goes while a packet is under way.
abbrev history : List EventTuple
history = event na 6800 ∷ event na 6900 ∷ event ndc 6800 ∷ event nd 6800 ∷ []

history-IsHistory : IsHistory 6800 none history
unfolding believe
history-IsHistory = (
  omega arith,
  omega arith,
  (λ _ _. refl),
  (
    omega arith,
    omega arith,
    (λ e _. absurd (omega arith)),
    (
      omega arith,
      omega arith,
      (λ _ e. absurd (omega arith)),
      (omega arith, omega arith, (λ _ e. absurd (omega arith)), tt),
    ),
  ),
)

believe_all-queue_all_example :
    believe_all 6800 (queue_all [] history) none ≡ believe_all 6800 history none
believe_all-queue_all_example = believe_all-queue_all 6800 history none history-IsHistory

-- The addition and the deletion of 6800 cancel out.
cancelled : queue_all [] history ≡ event na 6900 ∷ []
unfolding queue_all queue collapse
cancelled = refl

abbrev lost : Outstanding
lost = record { seq = 4; bytes = 1 ∷ 2 ∷ []; nets = []; at = 0; tries = 1 }

abbrev waiting : Turn
waiting = turn (record feeding { sender = Sender.wait_ri_upd_ack; outstanding = some lost }) new

abbrev times : List ℕ
times = 10 ∷ 20 ∷ 30 ∷ 41 ∷ 55 ∷ []

unanswered_closes_example :
    ((unanswered times waiting).peer ≡ close_sender waiting.peer)
    × ((unanswered times waiting).acts ≡ waiting.acts ++ repeats 4 (to_peer there (1 ∷ 2 ∷ [])))
unanswered_closes_example =
    unanswered_closes times lost waiting refl
      (omega arith, (omega arith, (omega arith, (omega arith, (omega arith, tt))))) (omega arith)
      refl

routing_other_example : Dialog.routing 8 0 tickle 5 (turn feeding new) ≡ turn feeding new
routing_other_example =
    routing_other 8 0 tickle 5 (turn feeding new) (omega arith) (omega arith) refl

refusal_read_example :
    (sent : List ℕ) × (Dialog.routing 9 0 (open_req all_sui 2 []) 5 (turn feeding new)
      ≡ record (turn feeding new) { acts = to_peer there sent ∷ [] })
    × (parse sent
        ≡ some (routing (record { dst = ip there; src = ip here }) 9 0 (open_rsp 0 (negsuc 4) [])))
refusal_read_example =
    refusal_read 9 0 all_sui 2 [] 5 (turn feeding new) (λ e. absurd (omega arith)) (omega arith)
      (omega arith) (omega arith)

split_tuples_lem_example :
    (joined (split_tuples (net 6800 ∷ net 6900 ∷ [])) ≡ net 6800 ∷ net 6900 ∷ [])
    × All Fits (split_tuples (net 6800 ∷ net 6900 ∷ []))
split_tuples_lem_example = split_tuples_lem (net 6800 ∷ net 6900 ∷ [])
