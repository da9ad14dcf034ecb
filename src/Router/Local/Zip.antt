-- ===== src/Router/Local/Zip.antt =====
-- src/router/local.rs: ZIP, its three calls over ATP, and the queries of our own.
use appletalk.Prelude.{
  ℕ, ◌+◌, ◌-◌, Bool, true, false, not, ◌&&◌, ◌||◌, decide, Option, none, some, List, [], ◌∷◌, ◌++◌,
  map, filter_map, find, ◌==◌, leb, ltb, min, length, drop, if◌then◌else◌, ◌>>=◌,
}
use appletalk.Wire.{Name, Addr, Addr-discrete}
use appletalk.Wire.Ddp.{Ddp}
use appletalk.Wire.Zip as WireZip
use appletalk.Wire.Zip.{Zip, NetInfo, query, get_net_info, net_info_reply, notify}
use appletalk.Wire.Zip.Atp as ZipAtp
use appletalk.Wire.Atp as Atp
use appletalk.Router.{port, peer}
use appletalk.Router.Table.{Tables, Changed, Route, complete}
use appletalk.Router.Table.Listings.{zones, all_zones, zoneless, add_zones}
use appletalk.Router.Ports.{Port, extended, default_zone, has_zone}
use appletalk.Router.Emits.{Dest, Emit, on, route}
use appletalk.Router.Local.{from_port, zip_socket, ddp_zip, ddp_atp, ddp_max, atp_max, zip_head}
use appletalk.Router.Local.Rtmp.{Served, answered, told_tables}
use appletalk.Router.Aurp.Pages.{utf8_len, is_empty}
use appletalk.Router.Aurp.Receiving.{group_names, chunks}

-- A network's number and the name with its length.
abbrev pub pair_bytes : Name → ℕ
pair_bytes name = 2 + 1 + min (utf8_len name) 32

abbrev pub pairs_bytes : List (ℕ × Name) → ℕ
pairs_bytes [] = 0
pairs_bytes ((net, name) ∷ pairs) = pair_bytes name + pairs_bytes pairs

unfoldable pub pages_loop : Option ℕ → List (ℕ × Name) → ℕ → List (ℕ × Name) → List Zip
pages_loop total batch size [] = if is_empty batch then [] else WireZip.reply batch total ∷ []
pages_loop total batch size (p ∷ ps) =
    elim (ltb ddp_max (size + pair_bytes p.1) && not (is_empty batch)) [
      | true ↦ WireZip.reply batch total ∷ pages_loop total (p ∷ []) (zip_head + pair_bytes p.1) ps
      | false ↦ pages_loop total (batch ++ p ∷ []) (size + pair_bytes p.1) ps
    ]

-- Each page has the size of the whole list, or 255.
unfoldable pub pages : List (ℕ × Name) → List Zip
unfolding pages_loop
pages pairs =
    pages_loop (some (if ltb (length pairs) 256 then length pairs else 255)) [] zip_head pairs

-- The replies so far, and the one under way with its bytes.
pub record Batch : Type 0 where
  pub replies : List Zip
  pub batch : List (ℕ × Name)
  pub size : ℕ

unfoldable pub flush_batch : Batch → Batch
flush_batch b = record {
  replies = b.replies ++ WireZip.reply b.batch none ∷ [];
  batch = [];
  size = zip_head;
}

-- A network's list is whole inside one reply, or has pages of its own.
unfoldable pub add_pairs : List (ℕ × Name) → Batch → Batch
unfolding flush_batch pages
add_pairs pairs b =
    let bytes = pairs_bytes pairs in
    let alone = ltb ddp_max (zip_head + bytes) in
    let full = not (is_empty b.batch) && (alone || ltb ddp_max (b.size + bytes)) in
    let b' = if full then flush_batch b else b in
    if alone
    then record b' { replies = b'.replies ++ pages pairs }
    else record b' { batch = b'.batch ++ pairs; size = b'.size + bytes }

abbrev pub known_pairs : Tables → ℕ → Option (List (ℕ × Name))
known_pairs tables net = elim (zones tables net) [
  | none ↦ none
  | some z ↦ if complete z then some (map (λ n. (net, n)) z.names) else none
]

unfoldable pub query_batch : Tables → List ℕ → Batch → Batch
unfolding add_pairs
query_batch tables [] b = b
query_batch tables (net ∷ nets) b =
    query_batch tables nets
      (elim (known_pairs tables net) [ none ↦ b | some pairs ↦ add_pairs pairs b ])

unfoldable pub query_replies : Tables → List ℕ → List Zip
unfolding query_batch
query_replies tables nets =
    let b = query_batch tables nets (record { replies = []; batch = []; size = zip_head }) in
    if is_empty b.batch then b.replies else b.replies ++ WireZip.reply b.batch none ∷ []

unfoldable pub query_reply : Port → Ddp → List ℕ → Tables → List Emit
unfolding query_replies from_port
query_reply p ddp nets tables =
    filter_map
      (λ r. elim (from_port p zip_socket ddp.src ddp.src_socket ddp_zip (WireZip.encode r)) [
        | none ↦ none
        | some d ↦ some (route d)
      ])
      (query_replies tables nets)

unfoldable pub add_all : Option ℕ → List (ℕ × List Name) → Tables → Changed
unfolding add_zones
add_all total [] t = (t, [])
add_all total ((net, names) ∷ groups) t =
    let first = add_zones t net names total in
    let rest = add_all total groups first.0 in (rest.0, first.1 ++ rest.1)

unfoldable pub learn_zones : List (ℕ × Name) → Option ℕ → Tables → Changed
unfolding add_all group_names
learn_zones pairs total t = add_all total (group_names pairs []) t

-- The flags are three bits, each set once at most.
unfoldable pub net_info_body : Port → Name → NetInfo
unfolding has_zone default_zone extended
net_info_body p zone =
    let valid = not (is_empty zone) && has_zone p zone in
    let effective = if valid then zone else default_zone p in
    record {
      flags =
          (if valid then 0 else 128)
          + (if length p.zones == 1 then 32 else 0)
          + (if extended p then 0 else 64);
      range = p.range;
      zone = zone;
      multicast = if extended p then some (ZipAtp.zone_multicast effective) else none;
      default_zone = if valid then none else some (default_zone p);
    }

-- A node whose network is not this cable's has no address to be reached at.
abbrev pub net_info_dest : Port → Ddp → Dest
net_info_dest p ddp =
    if leb p.range.0 ddp.src.net && leb ddp.src.net p.range.1
    then Dest.node ddp.src.node
    else Dest.broadcast

unfoldable pub net_info : Port → Ddp → Name → Option Emit
unfolding net_info_body from_port
net_info p ddp zone =
    elim (from_port p zip_socket ddp.src ddp.src_socket ddp_zip
      (WireZip.encode (net_info_reply (net_info_body p zone)))) [
        | none ↦ none
        | some d ↦ some (on p.id (net_info_dest p ddp) d)
      ]

-- As many names as fit in a response.
unfoldable pub fitting : ℕ → List Name → List Name
fitting size [] = []
fitting size (n ∷ ns) =
    let size' = size + (1 + min (utf8_len n) 32) in
    let rest = fitting size' ns in if ltb atp_max size' then [] else n ∷ rest

-- The list that a call asks for, and its first index, from 1.
unfoldable pub listed : Port → Tables → ZipAtp.ZipAtp → Option (List Name × ℕ)
unfolding default_zone
listed p tables (ZipAtp.get_zone_list start) = some (all_zones tables, start)
listed p tables (ZipAtp.get_local_zones start) = some (p.zones, start)
listed p tables ZipAtp.get_my_zone = some (default_zone p ∷ [], 1)
listed p tables (ZipAtp.reply last names) = none

abbrev pub user_bytes : Atp.UserBytes → List ℕ
user_bytes (a, b, c, d) = a ∷ b ∷ c ∷ d ∷ []

abbrev pub four : List ℕ → Atp.UserBytes
four (a ∷ b ∷ c ∷ d ∷ rest) = (a, b, c, d)
four _ = (0, 0, 0, 0)

-- The response, whose last-packet flag says that the list has run out.
unfoldable pub list_response : ℕ → List Name → Atp.Atp
unfolding fitting
list_response tid rest =
    let names = fitting 0 rest in
    let parts = ZipAtp.reply_parts (length names == length rest) names in
    Atp.response tid 0 true false (four parts.0) parts.1

abbrev pub is_request : Atp.Func → Bool
is_request Atp.req = true
is_request _ = false

unfoldable pub zone_list : Port → Ddp → Atp.Atp → Tables → Option Emit
unfolding listed list_response from_port
zone_list p ddp a tables = if not (is_request a.func) then none else do
  call ← ZipAtp.parse_request (user_bytes a.user_bytes)
  (all, start) ← listed p tables call
  d ←
      from_port p zip_socket ddp.src ddp.src_socket ddp_atp
        (Atp.encode (list_response a.tid (drop (start - 1) all)))
  some (route d)

unfoldable pub zip : Port → Ddp → Zip → Tables → Served
unfolding query_reply learn_zones net_info
zip p ddp (query nets) tables = answered tables (query_reply p ddp nets tables)
zip p ddp (WireZip.reply pairs total) tables = told_tables (learn_zones pairs total tables)
zip p ddp (get_net_info zone) tables =
    answered tables (elim (net_info p ddp zone) [ none ↦ [] | some e ↦ e ∷ [] ])
zip p ddp (net_info_reply info) tables = answered tables []
zip p ddp notify tables = answered tables []

-- The networks that lack zones, by port and next router.
pub record Asked : Type 0 where
  pub id : ℕ
  pub next : Addr
  pub nets : List ℕ

unfoldable pub ask : ℕ → Addr → ℕ → List Asked → List Asked
ask id next net [] = record { id = id; next = next; nets = net ∷ [] } ∷ []
ask id next net (a ∷ asked) =
    let rest = ask id next net asked in
    if a.id == id && decide (Addr-discrete a.next next)
    then record a { nets = a.nets ++ net ∷ [] } ∷ asked
    else a ∷ rest

unfoldable pub by_router : List Route → List Asked → List Asked
unfolding ask
by_router [] asked = asked
by_router (r ∷ rs) asked =
    by_router rs (elim r.target [ port id ↦ ask id r.next r.range.0 asked | peer addr ↦ asked ])

-- The count of networks is a byte.
unfoldable pub queries : Port → Asked → List Emit
unfolding from_port chunks
queries p a =
    filter_map
      (λ nets.
        elim (from_port p zip_socket a.next zip_socket ddp_zip (WireZip.encode (query nets))) [
          | none ↦ none
          | some d ↦ some (on a.id (Dest.node a.next.node) d)
        ])
      (chunks (length a.nets) 255 a.nets)

unfoldable pub queries_all : List Port → List Asked → List Emit
unfolding queries
queries_all ports [] = []
queries_all ports (a ∷ asked) =
    elim (find (λ p. p.id == a.id) ports) [ none ↦ [] | some p ↦ queries p a ]
    ++ queries_all ports asked

unfoldable pub zip_queries : List Port → Tables → List Emit
unfolding queries_all by_router
zip_queries ports tables = queries_all ports (by_router (zoneless tables) [])
