-- ===== src/Lib.antt =====
-- Verification of gateway-socket, an Ethernet gateway that lends the static addresses of an outside
-- network to registered users of an inside network.
--
-- The program and its parts:
--   - gateway-socket/packet.cpp: class Packet, a buffer with bounds-checked reads and writes. Packet has
--     each of its functions; Packet.Laws what they read and write.
--   - gateway-socket/ethernet.cpp, arp.cpp, ip.cpp, udp.cpp: the header fields at an offset in a packet
--     (Ethernet, Arp, Ip, Udp, with the functions' names in snake case). Ethernet.Mac has the text form
--     of hardware addresses, readMAC and printMAC.
--   - UDP::makePacket: Udp.Make; the bytes of its frame, with the checksums as the code computes them,
--     stand in Udp.Make.Frame, and with those of RFC 1071 in Udp.Make.Rfc. Checksum has one_compl of gateway-socket/gateway.cpp.
--   - gateway-socket/dhcp.cpp: Dhcp has the getters and writeResponse, Dhcp.Reply the bytes that it
--     writes.
--   - gateway-socket/gateway.cpp: the gateway's thread reads frames from both devices in turn and then
--     runs the handlers of its event loop. Other threads put requests into its queues, under a lock,
--     and count them in an eventfd (Mailbox: post, handle). Gateway.Handlers has the queues, the
--     functions that fill them and the handlers that empty them; Gateway.Tables the two maps that both
--     the handlers and the packet loops use, and the effects of a round; Gateway.Inside and
--     Gateway.Outside one round of each loop of Gateway::serve, for the frame that was read;
--     Gateway.Icmp the answer to a frame that is too long; Gateway.Serve the bursts of frames that make
--     up a turn of its main loop; Gateway.Loop the main loop itself, with the event loop and terminate.
--   - gateway-socket/database.cpp: the thread that answers DHCP requests and writes access times.
--     Requests has the structures of its requests, Database the handler for access times,
--     Database.Create the handler for DHCP requests over an interface to the prepared statements, and
--     Database.Load the queries of the start. Database.Sql has the tables and what the text of the
--     statements does on them, as an instance of the interface. Database.Loop has the queues of the
--     thread, its event loop and terminate.
--   - gateway-socket/socket.cpp: Device has the constructor and the destructor as calls of a kernel,
--     readPacket as a loop over the frames that wait, and writePacket.
--   - gateway-socket/main.cpp: Startup.Options has the options, Startup.Wait the wait for the database
--     server, Startup the requests that fill the gateway from the database, and Startup.Start the
--     whole of `main` up to its threads. System puts the parts together: the state of both threads,
--     and the steps that they and the signal handler make in any order, from what `main` posted on.
--
-- How the program is modelled:
--   - a byte is a number below 256, memory a list of bytes; `%` and `htons` are written out where the
--     source has machine words, and the machine is little-endian. An address is the 32-bit word as it
--     is loaded from memory. An `int` that may be negative is ℤ of Base.Int.
--   - memory that `malloc` returns is a parameter: a list of bytes of the size asked for.
--   - a getter that leaves a local unset has no value (`none`), and a round of a loop that uses one, or
--     the end of a map, is the verdict `fault`, or `none`.
--   - a datagram from outside from port 67 to port 68 is a `fault` as well: the program prints a line
--     for it whose conversion has no argument.
--   - a range of readByteArray or writeByteArray that ends before it starts is a copy of negative size:
--     the read gives no value, and behind the write the packet has no block of memory any more.
--   - a name from the command line that fills its array has no value: it would lack its terminator.
--   - makePacket for data whose frame has a length that is no `int` has no value.
--   - a map is an association list with `find`, `erase`, `insert` and `assign` of Base.Table.
--   - the loop of makePacket over the datagram runs on fuel, the length of the frame: it takes two bytes
--     a round.
--   - the clock is an argument of a round. Texts for the log are left out.
--   - the kernel, `eventfd`, `getopt_long`, `inet_addr`, `atoi`, `fork` and `fscanf` are parameters:
--     functions, or the results that they give in one run.
--   - a text is the list of its character codes. Texts in the database are compared as they are, where
--     the server's collation may take no notice of case; the rows with equal access times come in the
--     order of the table, where the server promises none. The statements of Database.Sql raise no
--     exception; those of Database.Create may.
--   - the event library is the list of the events that it looks at in a round, in its order; the list may
--     name an event again, and so stands for several rounds of the library. Gateway.Loop runs the gateway's
--     thread alone, a turn of the packet loops and then its events. In System every frame, every handler
--     and every look at an event is a step, with any number of frames in a turn. What a handler of
--     the database posts to the gateway waits in an outbox, and each post is a step of its own, in any
--     order between the queues. There the library looks at all six events of the gateway in each turn.
--   - how many rows the statement for access times reports is a parameter, since it is the server's matter.
--   - the loop over the tries for the database server runs on its thirty tries.
--
-- Not modelled: the calls that install the signal handler and start the threads, the log, the usage text,
-- and the destructors of the gateway and the database, which only call libraries.
pub mod Base
pub mod Packet
pub mod Ethernet
pub mod Arp
pub mod Ip
pub mod Checksum
pub mod Dhcp
pub mod Requests
pub mod Mailbox
pub mod Gateway
pub mod Database
pub mod Device
pub mod Startup
pub mod System
pub mod Udp
mod Tests
