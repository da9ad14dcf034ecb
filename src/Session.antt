-- ===== src/Session.antt =====
-- src/session.rs: messages put together from the datagrams of a transaction. Time is in
-- nanoseconds.
pub mod Reassembly
pub mod Completion
pub mod Keys
mod Tests
use appletalk.Prelude.{
  ℕ, zero, suc, ◌+◌, ◌-◌, ℕ_discrete, Bool, true, false, not, Option, none, some, List, [], ◌∷◌,
  ◌++◌, map, ◌==◌, ◌&&◌, ◌>>=◌, filter, take, length, leb, ltb, if◌then◌else◌,
}
use appletalk.Prelude.Maps.{get, insert, remove}
use appletalk.Wire.{Addr, Addr-discrete}
use appletalk.Wire.Atp
use appletalk.Wire.Ddp
use appletalk.Wire.Zip.Atp as ZipAtp
use appletalk.Wire.Packet

abbrev pub zis : ℕ
zis = 6

pub record TxnKey : Type 0 where
  pub src : Addr
  pub src_socket : ℕ
  pub dst : Addr
  pub dst_socket : ℕ
  pub tid : ℕ

unfoldable pub TxnKey-discrete : Discrete TxnKey
TxnKey-discrete = hlevel (ℕ_discrete, Addr-discrete)

pub record Transaction : Type 0 where
  pub key : TxnKey
  pub user_bytes : Atp.UserBytes
  pub bytes : List ℕ
  pub at : ℕ

pub record Partial : Type 0 where
  pub segments : List (Option (List ℕ))
  pub user_bytes : Atp.UserBytes
  pub last : Option ℕ
  pub first_seen : ℕ

abbrev pub new_partial : ℕ → Partial
new_partial first_seen = record {
  segments = none ∷ none ∷ none ∷ none ∷ none ∷ none ∷ none ∷ none ∷ [];
  user_bytes = (0, 0, 0, 0);
  last = none;
  first_seen = first_seen;
}

-- The first `n` segments, one after the other.
unfoldable pub gather : ℕ → List (Option (List ℕ)) → Option (List ℕ)
gather zero segments = some []
gather (suc n) [] = none
gather (suc n) (none ∷ segments) = none
gather (suc n) (some s ∷ segments) = gather n segments >>= λ out. some (s ++ out)

unfoldable pub take_if_complete : Partial → Option (List ℕ)
take_if_complete p = p.last >>= λ last. gather (suc last) p.segments

abbrev pub txn_timeout : ℕ
txn_timeout = 30000000000

abbrev pub max_open : ℕ
max_open = 512

abbrev pub Transactions : Type 0
Transactions = List (TxnKey × Partial)

-- A stable sort by the time at which a transaction was first seen.
unfoldable pub insert_by_time : TxnKey × Partial → Transactions → Transactions
insert_by_time e [] = e ∷ []
insert_by_time e (f ∷ fs) =
    if leb e.1.first_seen f.1.first_seen then e ∷ f ∷ fs else f ∷ insert_by_time e fs

unfoldable pub sort_by_time : Transactions → Transactions
unfolding insert_by_time
sort_by_time [] = []
sort_by_time (e ∷ es) = insert_by_time e (sort_by_time es)

unfoldable pub remove_all : Transactions → Transactions → Transactions
remove_all [] table = table
remove_all ((k, p) ∷ old) table = remove_all old (remove TxnKey-discrete k table)

-- The oldest go until one place below the cap is left; a time that lies ahead counts as no time.
unfoldable pub expire : Transactions → ℕ → Transactions
unfolding sort_by_time remove_all
expire table now =
    let kept = filter (λ e. ltb (now - e.1.first_seen) txn_timeout) table in
    if leb max_open (length kept)
    then remove_all (take (length kept - (max_open - 1)) (sort_by_time kept)) kept
    else kept

-- What was lost may have belonged to any of them.
abbrev pub flush : Transactions → Transactions
flush table = []

-- A `[T; 8]` with one element assigned; the guard on the sequence number keeps the index within it.
unfoldable pub assign {ℓ} : {A : Type ℓ} → ℕ → A → List A → List A
assign i x [] = []
assign zero x (y ∷ ys) = x ∷ ys
assign (suc i) x (y ∷ ys) = y ∷ assign i x ys

-- One response into what has come so far.
unfoldable pub receive : Partial → Atp.Atp → Partial
unfolding assign
receive p a = record {
  segments = assign a.bitmap (some a.bytes) p.segments;
  user_bytes = if a.bitmap == 0 then a.user_bytes else p.user_bytes;
  last = if Atp.eom a then some a.bitmap else p.last;
  first_seen = p.first_seen;
}

-- The entry under the key, or a new one.
abbrev pub partial_at : TxnKey → ℕ → Transactions → Partial
partial_at key at table = elim (get TxnKey-discrete key table) [
  | some p ↦ p
  | none ↦ new_partial at
]

unfoldable pub finish : Transactions → TxnKey → ℕ → Partial → Transactions × Option Transaction
finish table key at p = elim (take_if_complete p) [
  | none ↦ (insert TxnKey-discrete key p table, none)
  | some bytes ↦ (
    remove TxnKey-discrete key table,
    some (record { key = key; user_bytes = p.user_bytes; bytes = bytes; at = at }),
  )
]

abbrev pub txn_key : Ddp.Ddp → Atp.Atp → TxnKey
txn_key d a = record {
  src = d.src;
  src_socket = d.src_socket;
  dst = d.dst;
  dst_socket = d.dst_socket;
  tid = a.tid;
}

abbrev pub is_resp : Atp.Func → Bool
is_resp Atp.req = false
is_resp Atp.resp = true
is_resp Atp.rel = false

unfoldable pub push_response :
    Transactions → ℕ → Ddp.Ddp → Atp.Atp → Transactions × Option Transaction
unfolding receive finish
push_response table at d a =
    if is_resp a.func && leb a.bitmap 7
    then finish table (txn_key d a) at (receive (partial_at (txn_key d a) at table) a)
    else (table, none)

unfoldable pub push_body : Transactions → ℕ → Packet.Body → Transactions × Option Transaction
unfolding push_response
push_body table at (Packet.ddp d (Packet.atp a)) = push_response table at d a
push_body table at _ = (table, none)

unfoldable pub push : Transactions → ℕ → Packet.Packet → Transactions × Option Transaction
unfolding expire push_body
push table at p = push_body (expire table at) at p.body

pub data Message : Type 0 where
  unclassified : Transaction → Message
  zip : ZipAtp.ZipAtp → Message

abbrev pub user_byte_list : Atp.UserBytes → List ℕ
user_byte_list (a, b, c, d) = a ∷ b ∷ c ∷ d ∷ []

-- From the Zone Information Socket it is a ZIP reply, if it parses as one.
unfoldable pub classify : Transaction → Message
classify txn =
    if txn.key.src_socket == zis
    then elim (ZipAtp.parse_reply (user_byte_list txn.user_bytes) txn.bytes) [
      | some z ↦ zip z
      | none ↦ unclassified txn
    ]
    else unclassified txn

unfoldable pub session_push : Transactions → ℕ → Packet.Packet → Transactions × List Message
unfolding push classify
session_push table at p =
    let (table', done) = push table at p in
    (table', elim done [ none ↦ [] | some txn ↦ classify txn ∷ [] ])
