-- ===== src/Router/Aurp/Delivery.antt =====
-- src/router/aurp.rs: what a data receiver makes of a sender's packets, against a link whose numbers
-- never start again.
use appletalk.Prelude.{
  ℕ, ◌∙◌, ◌+◌, ◌-◌, ◌%◌, ◌≤◌, ◌<◌, ◌≡◌, refl, ap, ◌⊎◌, inl, inr, Bool, true, false, List, [], ◌∷◌,
  ◌==◌, decide, arith, ==_iff, if◌then◌else◌,
}
use appletalk.Wire.Rtmp.{NetworkTuple}
use appletalk.Wire.Aurp.{Cmd, ri_rsp, ri_upd, EventTuple}
use appletalk.Router.States.{Receiver-discrete}
use appletalk.Router.Table.{Tables}
use appletalk.Router.Aurp.{Peer, Turn, fresh, dup, stale, check_seq, succ, send, receiver_open}
use appletalk.Router.Aurp.Receiving.{on_ri_rsp, on_ri_upd, learn_all, apply_all}
use appletalk.Router.Aurp.Dialog.{routing, for_receiver}

-- A page of the export, marked where it is the last, or an update.
pub data Message : Type 0 where
  page : Bool → List NetworkTuple → Message
  update : List EventTuple → Message

abbrev pub command : Message → Cmd
command (page last tuples) = ri_rsp last tuples
command (update events) = ri_upd events

-- The number that the sender gives its packet at a place in the stream.
abbrev pub number : ℕ → ℕ
number i = i % 65535 + 1

-- The packets as they come in, each with its place in the stream and the time.
unfoldable pub deliver : ℕ → (ℕ → Message) → List (ℕ × ℕ) → Turn → Turn
unfolding routing
deliver conn stream [] t = t
deliver conn stream ((i, now) ∷ arrivals) t =
    deliver conn stream arrivals (routing conn (number i) (command (stream i)) now t)

abbrev pub meant : ℕ → ℕ → Message → Tables → Tables
meant addr now (page last tuples) t = (learn_all addr now tuples t).0
meant addr now (update events) t = (apply_all addr now events t).0

-- The link as it is meant: a packet counts when it is the next of the stream, and only then.
unfoldable pub ideal : ℕ → (ℕ → Message) → ℕ → List (ℕ × ℕ) → Tables → Tables
ideal addr stream next [] t = t
ideal addr stream next ((i, now) ∷ arrivals) t =
    if i == next
    then ideal addr stream (next + 1) arrivals (meant addr now (stream i) t)
    else ideal addr stream next arrivals t

-- A packet is the next one or an old one, by less than a round of the numbers.
abbrev pub InWindow : ℕ → List (ℕ × ℕ) → Type 0
InWindow next [] = Unit
InWindow next ((i, now) ∷ arrivals) =
    ((i ≡ next) × InWindow (next + 1) arrivals)
    ⊎ ((i < next) × (next - i ≤ 65533) × InWindow next arrivals)

-- The receiver is open and expects the stream's next packet.
pub record Expects (conn next : ℕ) (t : Turn) : Type 0 where
  pub on_conn : t.peer.conn_local ≡ conn
  pub is_open : receiver_open t.peer ≡ true
  pub expected : t.peer.seq_recv ≡ number next

succ-number : (i : ℕ) → succ (number i) ≡ number (i + 1)
unfolding succ
succ-number i = ground arith

next-fresh : (next : ℕ) (p : Peer) → p.seq_recv ≡ number next → check_seq p (number next) ≡ fresh
unfolding check_seq
next-fresh next p e = ground arith

old-ignored :
    (next i : ℕ) (p : Peer)
    → p.seq_recv ≡ number next
    → i < next
    → next - i ≤ 65533
    → (check_seq p (number i) ≡ dup) ⊎ (check_seq p (number i) ≡ stale)
unfolding check_seq succ
old-ignored next i p e l w = ground arith

-- What one packet leaves: the place that is expected, the tables, and the same peer.
record Leaves (conn next : ℕ) (tables : Tables) (t u : Turn) : Type 0 where
  pub expects : Expects conn next u
  pub tables_eq : u.tables ≡ tables
  pub addr_eq : u.peer.addr ≡ t.peer.addr

for_receiver-true : (conn next : ℕ) (t : Turn) → Expects conn next t → for_receiver conn t ≡ true
for_receiver-true conn next t x = rw (x.is_open, x.on_conn) (ground arith)

on_page_next :
    (conn next now : ℕ) (last : Bool) (tuples : List NetworkTuple) (t : Turn)
    → Expects conn next t
    → Leaves conn
        (next + 1)
        (meant t.peer.addr now (page last tuples) t.tables)
        t
        (on_ri_rsp conn (number next) last tuples now t)
unfolding on_ri_rsp send receiver_open decide Receiver-discrete
on_page_next conn next now true tuples t x =
    rw (next-fresh next t.peer x.expected, on_ri_rsp)
      (record {
        expects = record { on_conn = x.on_conn; is_open = refl; expected = succ-number next };
        tables_eq = refl;
        addr_eq = refl;
      })
on_page_next conn next now false tuples t x =
    rw (next-fresh next t.peer x.expected, on_ri_rsp)
      (record {
        expects = record { on_conn = x.on_conn; is_open = x.is_open; expected = succ-number next };
        tables_eq = refl;
        addr_eq = refl;
      })

on_update_next :
    (conn next now : ℕ) (events : List EventTuple) (t : Turn)
    → Expects conn next t
    → Leaves conn
        (next + 1)
        (meant t.peer.addr now (update events) t.tables)
        t
        (on_ri_upd conn (number next) events now t)
unfolding on_ri_upd send receiver_open
on_update_next conn next now events t x =
    rw (next-fresh next t.peer x.expected, on_ri_upd)
      (record {
        expects = record { on_conn = x.on_conn; is_open = x.is_open; expected = succ-number next };
        tables_eq = refl;
        addr_eq = refl;
      })

on_page_old :
    (conn next i now : ℕ) (last : Bool) (tuples : List NetworkTuple) (t : Turn)
    → Expects conn next t
    → i < next
    → next - i ≤ 65533
    → Leaves conn next t.tables t (on_ri_rsp conn (number i) last tuples now t)
unfolding on_ri_rsp send receiver_open
on_page_old conn next i now last tuples t x l w = elim (old-ignored next i t.peer x.expected l w) [
  | inl e ↦
      rw (e, on_ri_rsp)
        (record {
          expects = record { on_conn = x.on_conn; is_open = x.is_open; expected = x.expected };
          tables_eq = refl;
          addr_eq = refl;
        })
  | inr e ↦
      rw (e, on_ri_rsp)
        (record {
          expects = record { on_conn = x.on_conn; is_open = x.is_open; expected = x.expected };
          tables_eq = refl;
          addr_eq = refl;
        })
]

on_update_old :
    (conn next i now : ℕ) (events : List EventTuple) (t : Turn)
    → Expects conn next t
    → i < next
    → next - i ≤ 65533
    → Leaves conn next t.tables t (on_ri_upd conn (number i) events now t)
unfolding on_ri_upd send receiver_open
on_update_old conn next i now events t x l w = elim (old-ignored next i t.peer x.expected l w) [
  | inl e ↦
      rw (e, on_ri_upd)
        (record {
          expects = record { on_conn = x.on_conn; is_open = x.is_open; expected = x.expected };
          tables_eq = refl;
          addr_eq = refl;
        })
  | inr e ↦
      rw (e, on_ri_upd)
        (record {
          expects = record { on_conn = x.on_conn; is_open = x.is_open; expected = x.expected };
          tables_eq = refl;
          addr_eq = refl;
        })
]

next_step :
    (conn next now : ℕ) (m : Message) (t : Turn)
    → Expects conn next t
    → Leaves conn
        (next + 1)
        (meant t.peer.addr now m t.tables)
        t
        (routing conn (number next) (command m) now t)
unfolding routing
next_step conn next now (page last tuples) t x =
    rw (for_receiver-true conn next t x) (on_page_next conn next now last tuples t x)
next_step conn next now (update events) t x =
    rw (for_receiver-true conn next t x) (on_update_next conn next now events t x)

old_step :
    (conn next i now : ℕ) (m : Message) (t : Turn)
    → Expects conn next t
    → i < next
    → next - i ≤ 65533
    → Leaves conn next t.tables t (routing conn (number i) (command m) now t)
unfolding routing
old_step conn next i now (page last tuples) t x l w =
    rw (for_receiver-true conn next t x) (on_page_old conn next i now last tuples t x l w)
old_step conn next i now (update events) t x l w =
    rw (for_receiver-true conn next t x) (on_update_old conn next i now events t x l w)

-- A receiver that is open on the connection and expects the stream's packet at a place handles any run
-- of RI-Rsps and RI-Upds on it, each the next of the stream or an older one by at most 65533 places,
-- as an ideal link without wrap-around does: the tables are those after each packet of the stream is
-- applied once and in order, whatever the repeats.
pub deliver-ideal :
    (conn next : ℕ) (stream : ℕ → Message) (arrivals : List (ℕ × ℕ)) (t : Turn)
    → Expects conn next t
    → InWindow next arrivals
    → (deliver conn stream arrivals t).tables ≡ ideal t.peer.addr stream next arrivals t.tables
unfolding deliver ideal
deliver-ideal conn next stream [] t x w = refl
deliver-ideal conn next stream ((i, now) ∷ arrivals) t x (inl (e, w)) =
    let u = routing conn (number i) (command (stream i)) now t in
    let l : Leaves conn (next + 1) (meant t.peer.addr now (stream i) t.tables) t u =
      rw e (next_step conn next now (stream next) t x) in
    let h = deliver-ideal conn (next + 1) stream arrivals u l.expects w in
    let e' : (i == next) ≡ true = (==_iff i next).1 e in
    rw e' (
      h
      ∙ ap (λ a. ideal a stream (next + 1) arrivals u.tables) l.addr_eq
      ∙ ap (λ ts. ideal t.peer.addr stream (next + 1) arrivals ts) l.tables_eq)
deliver-ideal conn next stream ((i, now) ∷ arrivals) t x (inr (l, d, w)) =
    let u = routing conn (number i) (command (stream i)) now t in
    let s = old_step conn next i now (stream i) t x l d in
    let h = deliver-ideal conn next stream arrivals u s.expects w in
    let e' : (i == next) ≡ false = ground arith in
    rw e' (
      h
      ∙ ap (λ a. ideal a stream next arrivals u.tables) s.addr_eq
      ∙ ap (λ ts. ideal t.peer.addr stream next arrivals ts) s.tables_eq)
