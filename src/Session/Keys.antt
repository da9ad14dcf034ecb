-- ===== src/Session/Keys.antt =====
-- The transactions do not disturb each other (src/session.rs).
use appletalk.Prelude.{
  ℕ, ◌+◌, ◌-◌, ◌<◌, ◌≡◌, ◌≢◌, ◌∙◌, ap, refl, arith, Bool, true, Bool-cases, Option, none, some,
  Option-cases, ◌⊎◌, inl, inr, [], ◌∷◌, ◌&&◌, leb, ltb, length, filter,
}
use appletalk.Prelude.Maps.{get, get-insert, get-remove}
use appletalk.Wire.Atp.{Atp}
use appletalk.Wire.Ddp.{Ddp}
use appletalk.Wire.Packet as Packet
use appletalk.Session.{
  TxnKey, TxnKey-discrete, Transactions, Partial, take_if_complete, finish, push_response, txn_key,
  partial_at, receive, is_resp, expire, txn_timeout, max_open, push_body, push,
}

finish_other :
    (table : Transactions) (key j : TxnKey) (at : ℕ) (p : Partial)
    → key ≢ j
    → get TxnKey-discrete j (finish table key at p).0 ≡ get TxnKey-discrete j table
unfolding finish
finish_other table key j at p h = elim (Option-cases (take_if_complete p)) [
  | inl e ↦ rw (e, finish) (get-insert TxnKey-discrete key j p table ∙ ground (arith, h))
  | inr (out, e) ↦ rw (e, finish) (get-remove TxnKey-discrete key j table ∙ ground (arith, h))
]

push_response_other :
    (table : Transactions) (at : ℕ) (d : Ddp) (a : Atp) (j : TxnKey)
    → txn_key d a ≢ j
    → get TxnKey-discrete j (push_response table at d a).0 ≡ get TxnKey-discrete j table
unfolding push_response
push_response_other table at d a j h = elim (Bool-cases (is_resp a.func && leb a.bitmap 7)) [
  | inl e ↦
      rw e (finish_other table (txn_key d a) j at (receive (partial_at (txn_key d a) at table) a) h)
  | inr e ↦ rw e
]

-- The transaction that a packet may be of.
abbrev pub body_key : Packet.Body → Option TxnKey
body_key (Packet.ddp d (Packet.atp a)) = some (txn_key d a)
body_key _ = none

push_body_other :
    (table : Transactions) (at : ℕ) (b : Packet.Body) (j : TxnKey)
    → body_key b ≢ some j
    → get TxnKey-discrete j (push_body table at b).0 ≡ get TxnKey-discrete j table
unfolding push_body
push_body_other table at (Packet.aarp _) j h = refl
push_body_other table at Packet.Body.unknown j h = refl
push_body_other table at (Packet.ddp d (Packet.atp a)) j h =
    push_response_other table at d a j (λ e. h (ap some e))
push_body_other table at (Packet.ddp d (Packet.rtmp _)) j h = refl
push_body_other table at (Packet.ddp d (Packet.aep _)) j h = refl
push_body_other table at (Packet.ddp d (Packet.nbp _)) j h = refl
push_body_other table at (Packet.ddp d (Packet.zip _)) j h = refl
push_body_other table at (Packet.ddp d Packet.DdpBody.unknown) j h = refl

-- First seen less than 30 seconds ago, or in the future.
abbrev pub is_young : ℕ → TxnKey × Partial → Bool
is_young now e = ltb (now - e.1.first_seen) txn_timeout

get_cases :
    (j k : TxnKey) (p q : Partial) (table : Transactions)
    → get TxnKey-discrete j ((k, p) ∷ table) ≡ some q
    → ((k ≡ j) × (p ≡ q)) ⊎ ((k ≢ j) × (get TxnKey-discrete j table ≡ some q))
unfolding get
get_cases j k p q table e = ground arith

get-filter :
    (f : TxnKey × Partial → Bool) (j : TxnKey) (q : Partial) (table : Transactions)
    → f (j, q) ≡ true
    → get TxnKey-discrete j table ≡ some q
    → get TxnKey-discrete j (filter f table) ≡ some q
unfolding get
get-filter f j q [] y e = cc
get-filter f j q ((k, p) ∷ table) y e = elim (get_cases j k p q table e) [
  | inl (s, t) ↦ let g : f (k, p) ≡ true = rw (s, t) y in rw g (ground arith)
  | inr (n, t) ↦
      let rest = get-filter f j q table y t in
      elim (Bool-cases (f (k, p))) [ inl g ↦ rw g (ground arith) | inr g ↦ rw g rest ]
]

-- What has come for a transaction stays as it is when a packet of any other is pushed, if it was first
-- seen less than 30 seconds ago and fewer than 512 transactions are as young.
pub push_other :
    (table : Transactions) (at : ℕ) (p : Packet.Packet) (j : TxnKey) (q : Partial)
    → get TxnKey-discrete j table ≡ some q
    → at < q.first_seen + txn_timeout
    → length (filter (is_young at) table) < max_open
    → body_key p.body ≢ some j
    → get TxnKey-discrete j (push table at p).0 ≡ some q
unfolding push expire
push_other table at p j q e y c h =
    elim (Bool-cases (leb max_open (length (filter (is_young at) table)))) [
      | inl f ↦ absurd (ground arith)
      | inr f ↦
          push_body_other (expire table at) at p.body j h
          ∙ rw f (get-filter (is_young at) j q table (ground arith) e)
    ]
