-- ===== src/Lib.antt =====
-- Verification library of the server (directory src): the network layer under the UDP clients, with the
-- byte cursor and the powers of two that it stands on, and the skills and items of a character.
--
-- The parts and how they interact. A client speaks to the server over UDP. Packets to it are made by
-- tlg_packet.c (Packet), put in a queue and numbered by ack_mgr.c (Ack.Send), and dropped from the
-- queue when the client acknowledges them; they go out with a datagram for each fragment (Outgoing).
-- Packets from it are put in order, and fragments joined, by
-- ack_mgr.c (Ack.Recv), and go on to the thread that owns the client. Headers and payloads are written
-- and read with the byte cursor of aligned.c (Aligned). All queues grow by powers of two (bit.c, Bit).
-- Each datagram ends in a checksum (crc.c, Crc); its parts are read by udp_client.c (Udp), which gives
-- what it finds to both halves of ack_mgr.c. The threads of the server keep timers (timer.c, Timer).
-- The skills of a character (skills.c, Skills) are filled at creation or from the database, and
-- written to the player profile with the byte cursor; its items (inventory.c, Inventory) get small
-- numbers for the client. Addresses of local networks are told from others by util_ipv4.c (Ipv4);
-- names in buffers that may be full are measured by util_str.c (Text). The threads send each other
-- messages through the queues of ringbuf.c (RingBuf); strings are kept in the buffers of buffer.c
-- (Buffer).
--
-- Files and code:
--   Common       tests, arrays as lists over the native numbers, casts, laws of `&` and `|`
--   Aligned      src/aligned.c, src/aligned.h: one definition per function, without the prefix aligned_
--   Bit          src/bit.c, src/bit.h: the smearing rounds and both searches
--   Growth       the code by which the queue of src/ack_mgr.c and the arrays of src/inventory.c grow
--   Packet       src/tlg_packet.c: packet_create is create, packet_fragmentize is fragmentize
--   Ack          src/ack_mgr.c, src/ack_mgr.h: ack_cmp is cmp; Ack.Recv has the half to the server,
--                Ack.Send the half to the client; names without the prefix ack_
--   Crc          src/crc.c: crc_update, crc_calc32, with the table in Crc.Table
--   Udp          src/udp_client.c: udpc_recv_protocol is Udp.Protocol.recv_protocol, its parts are the
--                fields of Udp; udpc_send_ack is send_ack
--   Outgoing     src/ack_mgr.c: ack_send_fragment is send_fragment, ack_send_queued_packets is
--                send_queued_packets, with its loops as send_packets, send_packet and send_fragments
--   Timer        src/timer.c: the pool, with the timers in a heap; names without the prefix timer_pool_
--   RingBuf      src/ringbuf.c: ringbuf_push with ringbuf_push_impl is push_step, one shared access at a
--                time; ringbuf_wait_for_packet with ringbuf_pop and ringbuf_pop_impl is pop_step;
--                RingBuf.Spsc is the system of one producer and one consumer
--   Skills       src/skills.c, src/skills.h, with the tables of skills_init in Skills.Tables
--   Inventory    src/inventory.c, src/inventory.h: inv_item_id_for_client is item_id_for_client,
--                inv_from_db is from_db
--   Ipv4         src/util_ipv4.c: ip_is_local
--   Buffer       src/buffer.c: dbuf_append is append, dbuf_convert_to_sbuf is convert_to_sbuf
--   Text         src/util_str.c: str_len_bounded, str_len_overflow
--
-- How the code is represented. Memory is a list of numbers or of records; an access outside it is
-- `none`, as the release build drops the assertions. A pointer into shared memory is the memory itself.
-- Fields and locals with a width carry their wrap-around (`u8`, `u16`, `u32`). What `malloc` and
-- `realloc` answer, what memory holds before it is written, and whether a message could be pushed, are
-- arguments of the operations. Loops are structural recursion over the rounds that are left: every `for`
-- and `while` here has a count that the code itself computes before it starts, except the search for a
-- terminator, which has at most `length - cursor` rounds.
--
-- The queue of ringbuf.c links its blocks by `int16_t`; the theorems on it take at most
-- RINGBUF_MAX_PACKETS blocks, which ringbuf_create asserts. A count in an `int` that would overflow, a
-- write behind a buffer that was allocated, and a read from a payload whose allocation failed are
-- faults too.
--
-- Not modelled: system calls, the scheduling of threads, the database, logging, Lua; hash tables, the
-- saving and the stats of the inventory, zones, login and character selection.
pub mod Common
pub mod Ack
pub mod Aligned
pub mod Bit
pub mod Buffer
pub mod Crc
pub mod Growth
pub mod Inventory
pub mod Ipv4
pub mod Outgoing
pub mod Packet
pub mod RingBuf
pub mod Skills
pub mod Text
pub mod Timer
pub mod Udp
