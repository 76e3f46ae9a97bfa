-- ===== src/Lib.antt =====
-- NEVOS: a model of the firmware's core logic, with theorems about it.
--
-- The firmware is layered. The kernel (components/nev_kernel) has a pool of reference-counted
-- buffers, an event bus that passes them to subscribers, the settings, and a hash. The services
-- (components/nev_services) each keep their decisions in a core with no hardware and no clock. The
-- bridge (components/nev_bridge) keeps a session with a companion computer, in a message format of its
-- own, over CBOR and a WebSocket client. The games (apps/games) keep their rules apart from the screen.
--
-- Files and code:
--   Base, Base/*            shared names, Boolean tests, lists, words, counting
--   Kernel/Blob, Blob/*     components/nev_kernel/src/nev_blob.c: `alloc`, `retain`, `release`, ... are
--                           nev_blob_alloc and so on; `Pool` is the file's statics, `Block` one size class
--   Kernel/Bus, Bus/*       components/nev_kernel/src/nev_bus.c: `Sub` is struct nev_sub, `Bus` the file's
--                           statics, `publish` is nev_bus_publish, and so on
--   Kernel/Store, Store/*   components/nev_kernel/src/nev_store.c: `set_num` is nev_store_set_num, and so on;
--                           `Backend` is nev_store_backend_t, with its laws in Store/Laws, which a
--                           file of lines meets in Store/Tests
--   Kernel/Sha256, Sha256/* components/nev_kernel/src/nev_sha256.c: `update` is nev_sha256_update, and so on;
--                           Sha256/Reference is the standard's definition
--   Bridge/Cbor, Cbor/*     components/nev_bridge/src/nev_cbor.c: `w_u64` is nev_cbor_w_u64, `r_u64` is
--                           nev_cbor_r_u64, and so on
--   Bridge/Proto, Proto/*   components/nev_bridge/src/nev_proto.c, which is generated: the calls that its
--                           functions share are `encode` and `decode` over a `Schema`, and each function is
--                           one of them at the schema of its message (Proto/Messages)
--   Bridge/Ws, Ws/*         components/nev_bridge/src/nev_ws.c: `poll` is nev_ws_poll, `start` nev_ws_open, and so
--                           on; `Port` is the socket, with what the client relies on in Ws/Traffic
--   Bridge/Mdns, Mdns/*     components/nev_bridge/src/nev_mdns.c: `read_name` and `parse` as they are called there,
--                           with `poll` for nev_mdns_poll in Mdns/Search
--   Bridge/Session, Session/* components/nev_bridge/src/nev_bridge.c: `poll` is nev_bridge_poll, and so on;
--                           `Outside` is all that it calls, and the message formats are those of Bridge/Proto
--   Services/Talk, Talk/*   components/nev_services/src/talk_core.c: `press` is nev_ptt_press, and so on
--   Services/Net, Net/*     components/nev_services/src/net_core.c: `tick` is nev_net_core_tick, and so on
--   Services/Power, Power/* components/nev_services/src/power_core.c: `tick` is nev_power_core_tick,
--                           and so on
--   Services/Ota, Ota/*     components/nev_services/src/ota_core.c: `consider` is nev_ota_core_offer, and the
--                           others as they are called there; the hash is an interface, which
--                           Ota/Image fills with Kernel/Sha256
--   Games/Snake, Snake/*    apps/games/snake/snake_core.c: `step` is snake_core_step, and so on
--
-- Conventions. A function that updates the object behind a pointer returns the new object, beside its
-- result where it has one. Guards against a null object have no counterpart. Integers are natural
-- numbers, with the wrap of the unsigned types written out; `sub32` is the unsigned difference of two
-- stamps. Clock readings, random numbers, and what the platform answers, are arguments. An assertion that fails is an
-- outcome of its own, `panic`, and where builds differ the model takes the build as an argument.
-- Recursion is structural, but for a few loops. In the version comparison each round that goes on takes a
-- character of one of the strings, so fuel above their lengths is enough (Services/Ota/Versions). The two
-- loops of SHA-256 are on fuel as well: one takes a byte in each round, the other ends within 63. The loops of
-- the WebSocket client take at most one round more than there are bytes to read or to send (Ws/Rounds), and
-- running out of fuel is an outcome of its own. Reading a name in a packet takes as many rounds as its buffer
-- has bytes and nine more; out of fuel, and an access out of bounds, are outcomes of their own (Mdns/Names).
--
-- Not modelled: threads and the interleavings inside a call, log lines, and the parts of the firmware that
-- are drivers, drawing or glue over the platform. Of the bridge, the value of Sec-WebSocket-Accept and the
-- base64 of its key, which rest on SHA-1, are arguments of `start`, and the blob that carries the text of an
-- event from the bridge stays out: what the bridge publishes is an entry of a log.
pub mod Base
pub mod Bridge
pub mod Games
pub mod Kernel
pub mod Services
