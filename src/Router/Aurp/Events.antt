-- ===== src/Router/Aurp/Events.antt =====
-- src/router/aurp.rs: update events, those that wait to be sent and those that come in.
use appletalk.Prelude.{
  ℕ, ◌+◌, Bool, not, ◌&&◌, ◌||◌, Option, none, some, List, [], ◌∷◌, ◌==◌, ltb, leb, any,
  is_some_and, if◌then◌else◌,
}
use appletalk.Wire.Aurp.{EventTuple, Cmd, ri_upd, no_tuple}
use appletalk.Router.{peer}
use appletalk.Router.Table.{Tables, Changed, Route, RouteChange, tuple, is_port, complete}
use appletalk.Router.Table.Updates.{learn, remove, set_distance, is_entry}
use appletalk.Router.Table.Listings.{zones}
use appletalk.Router.Aurp.{no_next}

abbrev pub na : ℕ
na = 1

abbrev pub nd : ℕ
nd = 2

abbrev pub nrc : ℕ
nrc = 3

abbrev pub ndc : ℕ
ndc = 4

abbrev pub start : EventTuple → ℕ
start e = e.tuple.range.0

-- What is left to say when `ev` follows `old` for the same network.
unfoldable pub collapse : EventTuple → EventTuple → Option EventTuple
collapse old ev =
    if old.code == na && (ev.code == nd || ev.code == nrc)
    then none
    else if old.code == na && ev.code == ndc
    then some (record old { tuple = ev.tuple })
    else if (old.code == nd || old.code == nrc) && ev.code == na
    then some (record { code = ndc; tuple = ev.tuple })
    else some ev

unfoldable pub queue : List EventTuple → EventTuple → List EventTuple
queue [] ev = ev ∷ []
queue (p ∷ pending) ev =
    let rest = queue pending ev in
    if start p == start ev
    then elim (collapse p ev) [ none ↦ pending | some e ↦ e ∷ pending ]
    else p ∷ rest

-- An event from the peer at an address, against the tables. `learn` replaces an entry that is there.
unfoldable pub apply : ℕ → EventTuple → Tables → ℕ → Changed
apply addr e t now =
    let known = any (is_entry (peer addr) (start e)) t.routes in
    if e.code == na && ltb e.tuple.distance 15
    then learn t e.tuple (peer addr) no_next now
    else if e.code == nd || e.code == nrc
    then remove t (peer addr) (start e)
    else if e.code == ndc && leb 15 e.tuple.distance
    then remove t (peer addr) (start e)
    else if e.code == ndc && not known
    then learn t e.tuple (peer addr) no_next now
    else if e.code == ndc
    then set_distance t (peer addr) (start e) (e.tuple.distance + 1) now
    else (t, [])

unfoldable pub null_upd : Cmd
null_upd = ri_upd (record { code = 0; tuple = no_tuple } ∷ [])

-- Out one of our ports, and not too far.
abbrev pub tellable : Route → Bool
tellable r = is_port r.target && ltb r.distance 15

abbrev pub told : Option Route → Bool
told o = is_some_and o tellable

abbrev pub telling : Tables → Option Route → Bool
telling t o = is_some_and o (λ r. tellable r && is_some_and (zones t r.range.0) complete)

abbrev pub gone : Route → EventTuple
gone old = record {
  code = nd;
  tuple = record { range = old.range; extended = old.extended; distance = 0 };
}

abbrev pub hidden : Option Route → Bool
hidden o = is_some_and o (λ r. not (is_port r.target))

-- What the peers are told of a change; a route through a peer is never told.
unfoldable pub event_of : Tables → RouteChange → Option EventTuple
event_of t c = elim c.new [
  | none ↦ elim c.old [ none ↦ none | some old ↦ if tellable old then some (gone old) else none ]
  | some new ↦
      if telling t (some new)
      then (if told c.old
          then elim c.old [
            | none ↦ none
            | some old ↦
                if old.distance == new.distance
                then none
                else some (record { code = ndc; tuple = tuple new })
          ]
          else some (record { code = na; tuple = tuple new }))
      else elim c.old [
        | none ↦ none
        | some old ↦
            if tellable old
            then some (record (gone old) { code = if hidden (some new) then nrc else nd })
            else none
      ]
]
