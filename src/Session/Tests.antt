-- ===== src/Session/Tests.antt =====
-- A message in two parts, the second of which comes first and twice.
use appletalk.Prelude.{
  ℕ, zero, suc, ◌<◌, ◌≡◌, true, refl, some, List, [], ◌∷◌, arith, All, In, map, length, inl, inr,
  ℕ_discrete,
}
use appletalk.Prelude.Maps.{get}
use appletalk.Wire.{Addr-discrete}
use appletalk.Wire.Atp.{Atp, resp, eom}
use appletalk.Wire.Ddp.{Ddp}
use appletalk.Wire.Frame.{MacAddr}
use appletalk.Wire.Frame as WireFrame
use appletalk.Wire.Packet as Packet
use appletalk.Session.{
  new_partial, take_if_complete, TxnKey, TxnKey-discrete, Transactions, push, txn_key, gather,
  assign, receive,
}
use appletalk.Session.Reassembly.{concat, receive_all, IsPart, take_if_complete-receive_all}
use appletalk.Session.Completion.{receive_all_complete}
use appletalk.Session.Keys.{push_other}

abbrev two_parts : List (List ℕ)
two_parts = (1 ∷ 2 ∷ []) ∷ (3 ∷ []) ∷ []

abbrev first_part : Atp
first_part = record {
  func = resp;
  control = 0x80;
  bitmap = 0;
  tid = 9;
  user_bytes = (0, 0, 0, 0);
  bytes = 1 ∷ 2 ∷ [];
}

abbrev second_part : Atp
second_part = record first_part { control = 0x90; bitmap = 1; bytes = 3 ∷ [] }

abbrev arrivals : List Atp
arrivals = second_part ∷ second_part ∷ first_part ∷ []

first_part-IsPart : IsPart two_parts first_part
unfolding eom
first_part-IsPart = record { part = refl; seq = omega arith; end = refl }

second_part-IsPart : IsPart two_parts second_part
unfolding eom
second_part-IsPart = record { part = refl; seq = omega arith; end = refl }

arrivals-AllIsPart : All (IsPart two_parts) arrivals
arrivals-AllIsPart = (second_part-IsPart, (second_part-IsPart, (first_part-IsPart, tt)))

all_come : (i : ℕ) → i < length two_parts → In i (map (λ a. a.bitmap) arrivals)
all_come zero h = inr (inr (inl refl))
all_come (suc zero) h = inl refl
all_come (suc (suc i)) h = absurd (omega arith)

complete_run : take_if_complete (receive_all (new_partial 0) arrivals) ≡ some (1 ∷ 2 ∷ 3 ∷ [])
unfolding take_if_complete receive_all receive assign gather eom
complete_run = refl

take_if_complete-receive_all_example : 1 ∷ 2 ∷ 3 ∷ [] ≡ concat two_parts
take_if_complete-receive_all_example =
    take_if_complete-receive_all two_parts 0 arrivals (1 ∷ 2 ∷ 3 ∷ []) arrivals-AllIsPart
      complete_run

receive_all_complete_example :
    take_if_complete (receive_all (new_partial 0) arrivals) ≡ some (concat two_parts)
receive_all_complete_example =
    receive_all_complete two_parts 0 arrivals (omega arith) arrivals-AllIsPart all_come

abbrev datagram : Ddp
datagram = record {
  hops = 0;
  length = 22;
  checksum = 0;
  dst = record { net = 6800; node = 5 };
  dst_socket = 130;
  src = record { net = 6800; node = 1 };
  src_socket = 6;
  typ = 3;
  bytes = [];
}

abbrev other : TxnKey
other = record (txn_key datagram first_part) { tid = 10 }

abbrev no_mac : MacAddr
no_mac = record { m0 = 0; m1 = 0; m2 = 0; m3 = 0; m4 = 0; m5 = 0 }

abbrev first_packet : Packet.Packet
first_packet = record {
  frame = record { dst = no_mac; src = no_mac; proto = WireFrame.ddp; snap = true; payload = [] };
  body = Packet.ddp datagram (Packet.atp first_part);
}

abbrev under_way : Transactions
under_way =
    (txn_key datagram first_part, receive (new_partial 7) second_part)
    ∷ (other, receive (new_partial 5) second_part)
    ∷ []

push_other_example :
    get TxnKey-discrete other (push under_way 30000000004 first_packet).0
    ≡ some (receive (new_partial 5) second_part)
unfolding get TxnKey-discrete Addr-discrete ℕ_discrete receive
push_other_example =
    push_other under_way 30000000004 first_packet other (receive (new_partial 5) second_part) refl
      (omega arith) (omega arith) (λ e. cc)
