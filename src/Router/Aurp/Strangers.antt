-- ===== src/Router/Aurp/Strangers.antt =====
-- src/router/aurp.rs: packets for no connection of ours, and connections that are refused.
use appletalk.Prelude.{
  ℕ, ◌≡◌, ◌≢◌, refl, inl, inr, Bool, true, false, some, List, [], ◌∷◌, ◌++◌, ◌==◌, arith,
  Bool-cases, List-cases, ==_iff, if◌then◌else◌,
}
use appletalk.Prelude.Integers.{negsuc}
use appletalk.Wire.Aurp.{
  Cmd, ri_req, ri_rsp, ri_ack, ri_upd, rd, zi_req, zi_rsp, gzn_req, gzn_rsp, gdzl_req, gdzl_rsp,
  open_req, open_rsp, tickle, tickle_ack,
}
use appletalk.Wire.Aurp.{Aurp}
use appletalk.Wire.Aurp.Parse.{parse}
use appletalk.Wire.Aurp.RoundTrip.{IsCmd, parse-encode_aurp}
use appletalk.Wire.Aurp.RoundTrip.Items.{IsDi}
use appletalk.Prelude.Bytes.{IsU16}
use appletalk.Router.Actions.{to_peer}
use appletalk.Router.Aurp.Sending.{on_open_req, send_open_rsp}
use appletalk.Router.Aurp.{Peer, Turn, send, bytes}
use appletalk.Router.Aurp.Dialog.{routing}

abbrev pub is_open_req : Cmd → Bool
is_open_req (open_req sui version options) = true
is_open_req _ = false

-- A command other than Open-Req on a connection ID that is neither the one we opened nor the one the
-- peer opened changes nothing: not the peer, not the tables, and no packet goes out.
pub routing_other :
    (conn seq : ℕ) (cmd : Cmd) (now : ℕ) (t : Turn)
    → conn ≢ t.peer.conn_local
    → conn ≢ t.peer.conn_remote
    → is_open_req cmd ≡ false
    → routing conn seq cmd now t ≡ t
unfolding routing
routing_other conn seq cmd now t l r c =
    let l' : (conn == t.peer.conn_local) ≡ false = ground arith in
    let r' : (conn == t.peer.conn_remote) ≡ false = ground arith in go cmd c l' r'
  where
    go :
        (cmd : Cmd)
        → is_open_req cmd ≡ false
        → (conn == t.peer.conn_local) ≡ false
        → (conn == t.peer.conn_remote) ≡ false
        → routing conn seq cmd now t ≡ t
    go (open_req sui version options) c l r = cc
    go (ri_req sui) c l r = rw r refl
    go (ri_ack szi) c l r = rw r refl
    go tickle c l r = rw r refl
    go (zi_req nets) c l r = rw r refl
    go (gzn_req zone) c l r = rw r refl
    go (gdzl_req start) c l r = rw r refl
    go (open_rsp env rate_or_err options) c l r = rw l refl
    go (ri_rsp last tuples) c l r = rw l refl
    go (ri_upd events) c l r = rw l refl
    go (rd code) c l r = rw l refl
    go (zi_rsp extended zones) c l r = rw l refl
    go tickle_ack c l r = rw l refl
    go (gzn_rsp zone tuples) c l r = refl
    go (gdzl_rsp last start zones) c l r = refl

-- The answer to an Open-Req that cannot be accepted.
abbrev pub refusal : ℕ → Cmd
refusal version = open_rsp 0 (if version == 1 then negsuc 3 else negsuc 4) []

pub on_open_req_refused :
    (conn seq sui version : ℕ) (options : List (ℕ × List ℕ)) (now : ℕ) (t : Turn)
    → (version ≡ 1 → options ≢ [])
    → routing conn seq (open_req sui version options) now t ≡ send conn 0 (refusal version) t
unfolding routing on_open_req send_open_rsp appletalk.Router.Aurp.bytes send
on_open_req_refused conn seq sui version options now t h = elim (Bool-cases (version == 1)) [
  | inr e ↦ rw e refl
  | inl e ↦ elim (List-cases options) [
    | inl o ↦ absurd (h ((==_iff version 1).0 e) o)
    | inr (x, xs, o) ↦ rw (e, o) refl
  ]
]

refusal-IsCmd : (version : ℕ) → IsCmd (refusal version)
refusal-IsCmd version = elim (Bool-cases (version == 1)) [
  | inl e ↦ rw e ((omega arith, refl), omega arith, (tt, omega arith))
  | inr e ↦ rw e ((omega arith, refl), omega arith, (tt, omega arith))
]

-- An Open-Req with another version than 1, or with options, leaves the peer and the tables as they are
-- and sends the peer one packet, which reads back as an Open-Rsp with the error -5 for the version and
-- else -4, on the Open-Req's connection and with no option, where the two domain identifiers'
-- addresses have 32 bits and the connection ID 16.
pub refusal_read :
    (conn seq sui version : ℕ) (options : List (ℕ × List ℕ)) (now : ℕ) (t : Turn)
    → (version ≡ 1 → options ≢ [])
    → IsDi t.peer.di
    → IsDi t.peer.local
    → IsU16 conn
    → (packet : List ℕ) × ((routing conn seq (open_req sui version options) now t)
        ≡ record t { acts = t.acts ++ to_peer t.peer.addr packet ∷ [] })
      × (parse packet
          ≡ some (
              Aurp.routing
                (record { dst = t.peer.di; src = t.peer.local })
                conn
                0
                (refusal version)))
unfolding send appletalk.Router.Aurp.bytes
refusal_read conn seq sui version options now t h d l c = (
  bytes t.peer conn 0 (refusal version),
  on_open_req_refused conn seq sui version options now t h,
  parse-encode_aurp
      (Aurp.routing (record { dst = t.peer.di; src = t.peer.local }) conn 0 (refusal version))
      ((d, l), c, omega arith, refusal-IsCmd version),
)
