-- ===== src/Lib.antt =====
-- mania, a client of the NTQQ protocol written in Rust: its cipher, its packets, its TLVs, its login
-- and its transport, with the theorems that the parts fit together.
--
-- The parts and how they interact. A socket (mania/src/core/socket.rs) cuts the stream of the server
-- into packets; each is an SSO packet (core/packet.rs) that is decrypted with TEA (core/crypto/tea.rs)
-- and handed to the event of its command. The events of a login (core/event/login) put sets of TLVs
-- (core/tlv.rs and core/tlv/) into an envelope that is encrypted with an agreed key, and store what
-- they learn in the context (core/context.rs, core/key_store.rs, core/session.rs). Everything that is
-- written goes through PacketBuilder, everything that is read through PacketReader (core/packet.rs).
-- Uploads use frames of their own (core/highway/hw_frame_codec.rs), which the client of
-- core/highway/hw_client.rs sends. The business loop (core/business.rs) gives each parsed packet to the
-- handlers of its events and then to the request that waits for its sequence; on such requests stand
-- the cache of friends and members (core/operation/cache_op.rs) and the login by QR code
-- (core/operation/wt_op.rs).
--
-- Which file models which part:
--   Base      numbers, bytes, text and panics: `Fault` is code that may panic, `Attempt` code that
--             also returns a Result.
--   Tea       core/crypto/tea.rs: Tea.Block is the block cipher, Tea the chained mode and the padding.
--   Packet    core/packet.rs: Packet.Builder is PacketBuilder, a call being a function from the buffer
--             to a buffer or a panic; Packet.Reader is PacketReader, a call being a function from the
--             bytes that are left; Packet.Errors is PacketError.
--   Sso       core/packet.rs: SsoPacket, with Sso.Build for build and random_trace, Sso.Parse and
--             Sso.Fields for parse and Sso.Sequence for next_sequence, a step
--             relation on the counter and the threads that call it. Sign is core/sign.rs.
--   Context   core/context.rs, core/key_store.rs, core/session.rs: an ArcSwap is a field that is
--             replaced whole; Context.Keys has the sequence counter and the expiry.
--   Tlv       core/tlv.rs and core/tlv/: Tlv.Qrcode and Tlv.Login write, Tlv.Set reads and collects.
--   Event     core/event.rs: EventError, and code that returns one.
--   Login     core/event/login: Login.Wrapper is the envelope, Login.TransEmp the QR code, and
--             Login.WtLogin the login, where a Step reads and replaces the fields of a Context.
--   Highway   core/highway/hw_frame_codec.rs and HighwayError of core/highway.rs in Highway.Frame;
--             core/highway/hw_client.rs in Highway.Client (frames, and the loop that polls for an
--             answer) and Highway.Upload (both uploads). A TcpServer says what the connection, each
--             send and each poll give; Highway.Covers and Highway.Stops are about the loop.
--   Cache     core/cache.rs, core/operation/cache_op.rs and core/business/caching_logic.rs, with the
--             structs of entity/ in Entity and core/error.rs in Errors. A Task takes what send_event
--             answers from a list, one after the other, and waits where the list is used up;
--             Cache.Paging has the loops over pages, Cache.Fetch the refreshing, Cache.Lookup uin2uid
--             and uid2uin, Cache.Maybe the functions of a caller.
--   Business  core/business.rs: Business.Pending is the table of pending requests, a step relation on
--             the table and the channels, and Business.Refines its specification by the requests
--             alone; Business.Dispatch is dispatch_sso_packet, with resolve_event of core/event.rs.
--   Oidb      core/packet.rs: OidbPacket.
--   System    core/event/system/fetch_friend.rs and fetch_members.rs: the answers that the cache's pages
--             are.
--   Operations core/operation/wt_op.rs: the QR code and the loop that waits for it.
--   Hash      core/crypto/tri_sha1.rs.
--   Socket    core/socket.rs: recv_loop on the bytes of a connection that then ends.
--
-- Panics. An index out of range, `expect` and `unwrap` on nothing, and a subtraction of usize below
-- 0 are panics, as in a build with overflow checks. Integers wrap where the code casts them.
--
-- Fuel. recv_loop has one turn for each byte of the stream and one more; each turn takes at least the
-- four bytes of a length, so that is enough. The loop of login_by_qrcode has
-- sixty-one turns: each sleeps two seconds under a timeout of 120, so that is enough.
-- The offsets of an upload are at most as many as its bytes. The loop of tcp_upload that polls for an
-- answer has no bound in the code: its fuel is an argument, and an upload that has used it up is
-- `unfinished`. Numbers are written in at most twenty
-- digits, enough below 2^64. All other loops are recursions on a list or a count.
--
-- Parameters. Code that is not in the repository is an argument: the random filling of the cipher,
-- the protocol-buffer codecs that prost generates, the zlib decoder, the MD5 digest, the time, the
-- key agreement (its two keys are fields), the signing service, the SHA-1 hasher, the tables that the
-- build collects of parsers and of handlers, and what the server and the HTTP services answer. The
-- hypothesis on the filling is that it gives as many bytes as it is asked for, and those on the hasher
-- are that it goes on where it stopped.
--
-- Concurrency. Threads that take sequence numbers, and tasks that register, give up and answer
-- requests, are step relations, in any interleaving. A Task of the cache, an upload and a login run
-- alone: other tasks that change the cache in between are not modelled, and the order of the entries
-- of a DashMap, which is not fixed, is that of the list.
--
-- Not modelled: the events other than a login and the two fetches of lists, the logic of messages,
-- the messages and the other operations, StreamSha1, the macros and the audio codecs; connecting,
-- reconnecting, the heartbeat, files and HTTP are I/O.
pub mod Base
pub mod Tea
pub mod Packet
pub mod Context
pub mod Tlv
pub mod Highway
pub mod Socket
pub mod Event
pub mod Entity
pub mod Errors
pub mod Cache
pub mod Business
pub mod Operations
pub mod Hash
pub mod Oidb
pub mod System
pub mod Login
pub mod Sign
pub mod Sso
