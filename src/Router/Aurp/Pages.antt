-- ===== src/Router/Aurp/Pages.antt =====
-- src/router/aurp.rs: an export and a zone list split into packets.
pub mod Bounds
use appletalk.Prelude.{
  ℕ, zero, suc, ◌+◌, ◌%◌, Bool, true, false, not, ◌&&◌, Option, none, some, List, [], ◌∷◌, ◌++◌,
  map, ◌==◌, ltb, length, if◌then◌else◌,
}
use appletalk.Wire.{Name}
use appletalk.Wire.Rtmp.{NetworkTuple}
use appletalk.Wire.Aurp.{Cmd, zi_rsp}
use appletalk.Router.Table.{Tables}
use appletalk.Router.Table.Listings.{zones}
use appletalk.Router.Aurp.{max_body}

abbrev pub tuple_size : NetworkTuple → ℕ
tuple_size t = if t.extended then 6 else 3

-- The page under way, the bytes that it has, and the tuples to come.
unfoldable pub split_loop : List NetworkTuple → ℕ → List NetworkTuple → List (List NetworkTuple)
split_loop page used [] = page ∷ []
split_loop page used (t ∷ ts) = elim (ltb max_body (used + tuple_size t)) [
  | true ↦ page ∷ split_loop (t ∷ []) (tuple_size t) ts
  | false ↦ split_loop (page ++ t ∷ []) (used + tuple_size t) ts
]

unfoldable pub split_tuples : List NetworkTuple → List (List NetworkTuple)
unfolding split_loop
split_tuples tuples = split_loop [] 0 tuples

-- `String::len`: the bytes of a char's UTF-8.
abbrev pub utf8_len : Name → ℕ
utf8_len [] = 0
utf8_len (c ∷ cs) =
    (if ltb c 128 then 1 else if ltb c 2048 then 2 else if ltb c 65536 then 3 else 4) + utf8_len cs

abbrev pub name_size : Name → ℕ
name_size n = 3 + utf8_len n

abbrev pub names_size : List Name → ℕ
names_size [] = 0
names_size (n ∷ ns) = name_size n + names_size ns

abbrev pub is_empty {ℓ} : {A : Type ℓ} → List A → Bool
is_empty [] = true
is_empty (x ∷ xs) = false

-- One network's list over several packets, the whole list's count on each.
unfoldable pub chunk_names : ℕ → ℕ → List (ℕ × Name) → ℕ → List Name → List Cmd
chunk_names net count chunk chunked [] =
    if is_empty chunk then [] else zi_rsp (some count) chunk ∷ []
chunk_names net count chunk chunked (n ∷ ns) =
    elim (ltb max_body (chunked + name_size n) && not (is_empty chunk)) [
      | true ↦ zi_rsp (some count) chunk ∷ chunk_names net count ((net, n) ∷ []) (name_size n) ns
      | false ↦ chunk_names net count (chunk ++ (net, n) ∷ []) (chunked + name_size n) ns
    ]

-- The replies so far, and the page under way with its bytes.
pub record Replies : Type 0 where
  pub out : List Cmd
  pub page : List (ℕ × Name)
  pub used : ℕ

unfoldable pub flush_page : Replies → Replies
flush_page r =
    if is_empty r.page
    then r
    else record { out = r.out ++ zi_rsp none r.page ∷ []; page = []; used = 0 }

unfoldable pub add_list : ℕ → List Name → Replies → Replies
unfolding flush_page chunk_names
add_list net names r =
    if is_empty names
    then r
    else if ltb max_body (names_size names)
    then record (flush_page r) {
      out = (flush_page r).out ++ chunk_names net (length names % 65536) [] 0 names;
    }
    else let r' = if ltb max_body (r.used + names_size names) then flush_page r else r in
      record r' { page = r'.page ++ map (λ n. (net, n)) names; used = r'.used + names_size names }

unfoldable pub add_nets : Tables → List ℕ → Replies → Replies
unfolding add_list
add_nets t [] r = r
add_nets t (net ∷ nets) r =
    add_nets t nets (elim (zones t net) [ none ↦ r | some z ↦ add_list net z.names r ])

-- The replies that name the zones of networks.
unfoldable pub zi_pages : List ℕ → Tables → List Cmd
unfolding add_nets flush_page
zi_pages nets t = (flush_page (add_nets t nets (record { out = []; page = []; used = 0 }))).out
