-- ===== src/Router/Local/ZoneList.antt =====
-- src/router/local.rs: a node that fetches a zone list page by page.
use appletalk.Prelude.{
  ℕ, zero, suc, ◌+◌, ◌-◌, ◌<◌, ◌≡◌, ◌≢◌, refl, sym, ap, ◌∙◌, inl, inr, Bool, true, false, Option,
  none, some, List, [], ◌++◌, ◌==◌, drop, length, All, arith, Bool-cases, ◌>>=◌, if◌then◌else◌,
}
use appletalk.Wire.{Name, Addr}
use appletalk.Wire.Pstring.{IsName}
use appletalk.Wire.Zip.Atp.{
  ZipAtp, reply, get_zone_list, get_local_zones, get_my_zone, parse_reply, parse_request,
}
use appletalk.Prelude.Bytes.{IsU16, hi_byte, lo_byte, from_be-bytes}
use appletalk.Wire.Atp as Atp
use appletalk.Wire.Atp.RoundTrip.{response-parse}
use appletalk.Wire.Ddp.{Ddp}
use appletalk.Router.Table.{Tables}
use appletalk.Router.Table.Listings.{all_zones}
use appletalk.Router.Ports.{Port, port_addr}
use appletalk.Router.Emits.{Emit, on, route}
use appletalk.Router.Local.{from_port, datagram, ddp_atp, zip_socket}
use appletalk.Router.Local.Zip.{fitting, listed, list_response, user_bytes, zone_list}
use appletalk.Router.Local.ZonePages.{
  drop-drop, length-drop, fitting-drop, length-fitting, page_lem, short_page, whole_page,
}

-- The request that a node sends from a start index: GetZoneList is function 8, GetLocalZones 9.
abbrev pub call : Bool → ℕ → ℕ → Atp.Atp
call local tid start =
    Atp.new_request tid 1 none ((if local then 9 else 8), 0, hi_byte start, lo_byte start) []

-- What such a request asks for: the port's own zones, or all that the tables have.
abbrev pub asked : Bool → Port → Tables → List Name
asked local p t = if local then p.zones else all_zones t

abbrev pub routed : Emit → Option Ddp
routed (on id dest d) = none
routed (route d) = some d

-- What the node reads out of the bytes of the answer.
abbrev pub read : Option Emit → Option ZipAtp
read answer = do
  e ← answer
  d ← routed e
  a ← Atp.parse d.bytes
  parse_reply (user_bytes a.user_bytes) a.bytes

abbrev pub fetched : Bool → Port → Ddp → Tables → ℕ → ℕ → Option ZipAtp
fetched local p ddp t tid start = read (zone_list p ddp (call local tid start) t)

-- It asks on from where it is until a page is the last.
unfoldable pub collect : ℕ → Bool → Port → Ddp → Tables → ℕ → ℕ → Option (List Name)
collect zero local p ddp t tid start = none
collect (suc fuel) local p ddp t tid start = do
  page ← fetched local p ddp t tid start
  elim page [
    | reply last names ↦
        if last
        then some names
        else (collect fuel local p ddp t tid (start + length names) >>= λ more.
            some (names ++ more))
    | get_my_zone ↦ none
    | get_zone_list s ↦ none
    | get_local_zones s ↦ none
  ]

list_response-parse :
    (tid : ℕ) (rest : List Name)
    → IsU16 tid
    → Atp.parse (Atp.encode (list_response tid rest)) ≡ some (list_response tid rest)
unfolding list_response
list_response-parse tid rest h = (response-parse tid 0 true false _ _ h).0

from_port-sender :
    (p : Port) (sender : Addr) (src_socket : ℕ) (dst : Addr) (dst_socket typ : ℕ) (body : List ℕ)
    → port_addr p ≡ some sender
    → from_port p src_socket dst dst_socket typ body
      ≡ some (datagram sender src_socket dst dst_socket typ body)
unfolding from_port
from_port-sender p sender src_socket dst dst_socket typ body e = rw (e, from_port) refl

zone_list-lem :
    (p : Port) (ddp : Ddp) (a : Atp.Atp) (t : Tables) (c : ZipAtp) (all : List Name) (start : ℕ)
    (sender : Addr)
    → a.func ≡ Atp.req
    → parse_request (user_bytes a.user_bytes) ≡ some c
    → listed p t c ≡ some (all, start)
    → port_addr p ≡ some sender
    → zone_list p ddp a t
      ≡ some (
          route (
            datagram sender zip_socket ddp.src ddp.src_socket ddp_atp
              (Atp.encode (list_response a.tid (drop (start - 1) all)))))
unfolding zone_list
zone_list-lem p ddp a t c all start sender f q g e =
    rw
      (
        f,
        q,
        ◌>>=◌,
        g,
        ◌>>=◌,
        from_port-sender p sender zip_socket ddp.src ddp.src_socket ddp_atp
            (Atp.encode (list_response a.tid (drop (start - 1) all))) e,
      )
      refl

zone_list-answer :
    (local : Bool) (p : Port) (ddp : Ddp) (t : Tables) (tid start : ℕ) (sender : Addr)
    → port_addr p ≡ some sender
    → IsU16 tid
    → IsU16 start
    → let r = list_response tid (drop (start - 1) (asked local p t)) in
      fetched local p ddp t tid start ≡ parse_reply (user_bytes r.user_bytes) r.bytes
unfolding listed parse_request Atp.new_request datagram
zone_list-answer true p ddp t tid start sender e h i =
    let back = list_response-parse tid (drop (start - 1) p.zones) h in
    rw
      (
        zone_list-lem p ddp (call true tid start) t (get_local_zones start) p.zones start sender
            refl (rw (from_be-bytes start i) refl) refl e,
        ◌>>=◌,
        back,
        ◌>>=◌,
      )
      refl
zone_list-answer false p ddp t tid start sender e h i =
    let back = list_response-parse tid (drop (start - 1) (all_zones t)) h in
    rw
      (
        zone_list-lem p ddp (call false tid start) t (get_zone_list start) (all_zones t) start
            sender refl (rw (from_be-bytes start i) refl) refl e,
        ◌>>=◌,
        back,
        ◌>>=◌,
      )
      refl

fetched_lem :
    (local : Bool) (p : Port) (ddp : Ddp) (t : Tables) (tid k : ℕ) (sender : Addr)
    → port_addr p ≡ some sender
    → IsU16 tid
    → All IsName (asked local p t)
    → length (asked local p t) < 65536
    → k + 1 < 65536
    → let d = drop k (asked local p t) in
      let names = fitting 0 d in
      fetched local p ddp t tid (k + 1) ≡ some (reply (length names == length d) names)
fetched_lem local p ddp t tid k sender e h v l u =
    zone_list-answer local p ddp t tid (k + 1) sender e h u ∙ page_lem tid (asked local p t) k v l

module _ (local : Bool) (p : Port) (ddp : Ddp) (t : Tables) (tid : ℕ) (sender : Addr)
    (e : port_addr p ≡ some sender) (h : IsU16 tid) (v : All IsName (asked local p t))
    (l : length (asked local p t) < 65536) where
  collect_from :
      (fuel k : ℕ)
      → k + 1 < 65536
      → length (drop k (asked local p t)) < fuel
      → collect fuel local p ddp t tid (k + 1) ≡ some (drop k (asked local p t))
  unfolding collect
  collect_from zero k u f = absurd (omega arith)
  collect_from (suc fuel) k u f =
      let all = asked local p t in
      let page = fetched_lem local p ddp t tid k sender e h v l u in
      elim (Bool-cases (length (fitting 0 (drop k all)) == length (drop k all))) [
        | inl q ↦ rw (page, q, ◌>>=◌) (ap (λ x. some x) (whole_page (drop k all) q))
        | inr q ↦
            let m = length (fitting 0 (drop k all)) in
            let z : k + 1 + m ≡ k + m + 1 = omega arith in
            let b = length-drop k all in
            let c = length-drop (k + m) all in
            let o = short_page (drop k all) q in
            let w = length-fitting (drop k all) in
            let n : m ≢ length (drop k all) = ground arith in
            let more = collect_from fuel (k + m) (omega arith) (omega arith) in
            rw (page, q, ◌>>=◌)
              (rw (z, more, ◌>>=◌)
                (ap (λ x. some x)
                  (ap (λ x. fitting 0 (drop k all) ++ x) (drop-drop k m all)
                    ∙ sym (fitting-drop (drop k all) 0))))
      ]

-- A node that asks a port with an address for the zone list, or for the zones of its own network, under
-- a 16-bit transaction number, from index 1 on and then each time behind the names that it has, and
-- reads the answers from their bytes, until a page says that it is the last, ends after at most one
-- page a name and one more, and has the whole list in order, if that has fewer than 65536 names, each
-- of at most 32 characters of one byte.
pub collect-zone_list :
    (local : Bool) (p : Port) (ddp : Ddp) (t : Tables) (tid : ℕ) (sender : Addr)
    → port_addr p ≡ some sender
    → IsU16 tid
    → All IsName (asked local p t)
    → length (asked local p t) < 65536
    → collect (length (asked local p t) + 1) local p ddp t tid 1 ≡ some (asked local p t)
collect-zone_list local p ddp t tid sender e h v l =
    collect_from local p ddp t tid sender e h v l (length (asked local p t) + 1) 0 (omega arith)
      (omega arith)
