-- ===== src/Lib.antt =====
-- Verification of the AppleTalk protocol stack and router.
--
-- The program reads AppleTalk packets off Ethernet, LocalTalk and UDP links, decodes them, and routes
-- between networks. The packets' formats are in src/wire, one file a protocol; the router in
-- src/router keeps its routes and zones in one set of tables, which the local protocols and the AURP
-- peers change and read. Every change of a route that matters to the peers is reported by value.
--
-- Wire models src/wire/mod.rs: Wire (Addr), Wire/Pstring (pstring, put_pstring), Wire/Frame (Frame),
-- and Wire/Packet (decode, decode_ddp_body). Its children model the protocols' own files: Wire/Ddp
-- src/wire/ddp.rs, Wire/Rtmp src/wire/rtmp.rs, Wire/Nbp src/wire/nbp.rs, Wire/Zip and Wire/Zip/Atp
-- src/wire/zip.rs, Wire/Atp src/wire/atp.rs, Wire/Llap src/wire/llap.rs, Wire/Aarp src/wire/aarp.rs,
-- Wire/Aep src/wire/aep.rs, and Wire/Aurp with its children src/wire/aurp.rs. A parser is a function
-- from a list of bytes into Option, and an `encode` returns the bytes that the source appends. The
-- theorems are in the RoundTrip modules and in Wire/Packet/Stack.
--
-- Router/Table models src/router/table.rs: Router/Table has the types and best, Router/Table/Settle
-- settle and its snapshot, Router/Table/Updates learn, age, remove_target, remove and set_distance,
-- Router/Table/Listings tuples_for, export and the zone lists. The operations of Tables take the
-- tables and return them with what the source returns. The modules below these prove the theorems.
-- Router/Multicast puts a zone's multicast address against the comparison of names in the tables.
--
-- Router/Aurp models src/router/aurp.rs. Router/States and Router/Actions hold the states and what a
-- handler asks for; Router/Aurp has Peer and its small operations, Router/Aurp/Pages split_tuples and
-- zi_pages, Router/Aurp/Events queue, apply and the events of a route change, Router/Aurp/Sending the
-- sender's side (open_req, ri_ack, send_page, sender_timers), Router/Aurp/Receiving the receiver's
-- (the branches of routing, receiver_timers, zi_rerequest), Router/Aurp/Dialog routing, report and one
-- peer's tick, Router/Aurp/Peers the methods of Peers, Router/Aurp/Operator shutdown and ping. A
-- handler takes a Turn, which is the peer with the tables and what `out` has gathered, and returns it.
-- The theorems are in Router/Aurp/Invariant, Delivery, Collapse, Retries, Strangers and Pages/Bounds.
--
-- Router/Local models src/router/local.rs: Router/Local/Rtmp, Nbp and Zip the protocols, and
-- Router/Local/Services handle, echo and tick. Router/Ports models src/router/ports.rs: Port and its
-- readers, Router/Ports/Sending its emit, Router/Ports/Inbound its claim of a node and the frames that
-- come in, with what these use of src/node.rs. Router/Core models src/router/mod.rs: Router, forward,
-- emit, changed, arrived, and step for a packet of a peer, Router/Core/Steps step for a frame. A
-- service hands back its datagrams (Router/Emits) with the tables and their changes, which arrived
-- passes to the peers and to forward. The theorems are in Router/Local/Beacons, Announced and
-- ZoneList (with ZonePages), in Router/Ports/Claims and in Router/Core/Hops and NoEcho;
-- Router/Core/Sent says by which action forward sends a datagram on.
--
-- Tashtalk models src/tashtalk.rs up to the serial port: crc_update, fcs, the commands, and the
-- Decoder with its feed. Tashtalk/Link states what the firmware sends (its escapes) and puts the
-- decoder against it; Tashtalk/Fcs is about the check sequence.
--
-- Session models src/session.rs: Transactions with push, expire and flush, and Session::push on top.
-- Session/Reassembly and Session/Completion are about one transaction, Session/Keys about several.
--
-- A byte, a u16, a char and an IPv4 address are numbers, with `%` where the source wraps or casts. A
-- map is an association list in the order of insertion. Time is in seconds in the tables and at the
-- peers, in milliseconds at the ports and in nanoseconds in Session. A loop `while !rest.is_empty()`
-- runs on fuel, one unit a byte: each turn takes one byte at least, so it never runs out; `chunks` of
-- a list runs on one unit an element.
--
-- Not modelled: text forms (Display, dump), sockets, threads and the serial port, the configuration,
-- the command line, the text of log lines (a line keeps what it names), the clock that seeds the
-- connection IDs and the hash that seeds a port's candidates (parameters), the bridge, the
-- node's own claim, and the router's step for a tick.
pub mod Prelude
pub mod Router
pub mod Session
pub mod Tashtalk
pub mod Wire
