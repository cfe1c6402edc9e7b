-- ===== src/Lib.antt =====
-- The port agent sits between an instrument and its drivers: it reads the instrument's bytes
-- into packets, hands the packets to publishers that write them to a log, to the drivers and to
-- the instrument, and is configured by lines of text that arrive on a command port.
--
-- The program's parts and their models, with paths from the repository's root:
--
-- - src/common/timestamp.cxx, class Timestamp: Timestamp.antt has the record of the two 32-bit
--   fields, both setTime methods and asBinary; Timestamp/Laws.antt what is kept of the clock.
-- - src/port_agent/packet/packet.cxx, class Packet: Packet.antt has its members as PacketBase, the
--   packet types and the accessors. They are not virtual, which the publishers depend on.
-- - src/port_agent/packet/port_agent_packet.cxx, class PortAgentPacket: Packet/PortAgentPacket.antt.
--   The constructor is new_packet and construct, packet() is packet, calculateChecksum is
--   calculate_checksum, copy and operator= are copy and assign. A buffer is an Option of a list of
--   bytes (none for NULL); fresh memory is a function from offsets to bytes, over which the
--   theorems quantify. Packet/Checksum, Wire, RoundTrip, Build and Copy hold the proofs.
-- - src/port_agent/packet/buffered_single_char.cxx, class BufferedSingleCharPacket:
--   Packet/Buffered.antt. float is a record of the three tests that the class makes. A pointer
--   that was freed is a value of its own, and reading it is the error memory_fault.
-- - src/port_agent/config/port_agent_config.cxx, class PortAgentConfig: Config.antt has the members,
--   the defaults, the command queue and the class ObservatoryDataPorts; Config/Configured.antt
--   isConfigured;
--   Config/Text.antt the string streams, atoi and chomp; Config/Setters.antt and Config/Values.antt
--   the set methods; Config/CommandLine.antt readConfig, setParameter and the constructor's check;
--   Config/Keywords.antt splitCommand and the order of the tests of processCommand;
--   Config/Commands.antt its branches (execute), processCommand and parse. The configuration, the
--   data ports and the logger's level and file are one record, World.
-- - src/common/log_file.cxx, class LogFile: Publisher.antt has its members and its equality,
--   Publisher/Rotation.antt the file name that it makes of a local time, Publisher/Rotation/Periods
--   when that name changes. The stream is not modelled.
-- - src/port_agent/publisher/: Publisher.antt has the members, compare and write;
--   Publisher/Routing.antt the handlers of each class and publish; Publisher/PublisherList.antt the
--   list of publisher_list.cxx. src/network/comm_socket.cxx and tcp_comm_listener.cxx give the
--   comparison of comm objects.
-- - src/network/: Network.antt has what the communication objects share. The kernel is a function
--   of the history of system calls and the call that is made, so that its answers may depend on
--   all that happened; a method is a function of the object and the history that returns or
--   raises. Network/TcpCommListener.antt has tcp_comm_listener.cxx, Network/CommSocket.antt
--   comm_socket.cxx, tcp_comm_socket.cxx and udp_comm_socket.cxx, Network/SerialCommSocket.antt
--   serial_comm_socket.cxx. Network/Hoare.antt has the outcomes of methods, the descriptors that a
--   history leaves open, and what is asked of a kernel (Sound); Network/Sending.antt is about the
--   write loop that three classes share. The children of the classes are about the listener's
--   descriptors (Binding, Clients, Accepting), its reads (Reading, Stalling) and the connecting
--   (Connecting).
-- - src/port_agent/connection/: Connection/Observatory.antt has the containers of listeners,
--   Connection/Instrument.antt those of the instrument's sockets, Connection/Rsn.antt the digi
--   with its command port.
-- - src/port_agent/port_agent.cxx, class PortAgent: Agent.antt has its state, the switch of
--   processPortAgentCommands (obey), handlePortAgentCommand, publishHeartbeat and publishPacket.
--   What leaves the agent is a list of effects. Agent/Obedience, States and Heartbeat hold the
--   proofs. The two loops over the queue run on fuel, a round for each queued command and one more.
-- - The agent with its connections is Session.antt and its children, which run the agent of
--   Agent.antt over a kernel: Session/Instruments has initializeInstrumentConnection and its
--   branches, Session/Observatories those of the observatory, Session/Sinks initializePublishers,
--   Session/Handlers the handlers of connections and handlePortAgentCommand, Session/Poll the
--   handlers of the states, buildFDSet and poll. What is ready to read is the answer of select, a
--   parameter. Following a NULL or freed pointer is memory_fault, and exit() process_exit, which
--   poll does not catch. Keeping, Endings, Connecting, Listening, Serving, Running, Dispatching
--   and Rounds lead to the theorem on poll, Serving/Unbroken compares the commands of the session
--   with those of Agent.antt, Machine has the changes of state that a round allows, Moving is about
--   a command port that changes, and Lines about the settings of a serial line. What is handed to the
--   publishers is an effect of the agent; what they write is modelled in Publisher.antt.
-- * Prelude.antt and its children: the machine's words, bytes and lists that all parts share.
--   Scenarios.antt and its children: tests, and the theorems applied to concrete data.
--
-- How the parts interact: construct makes a packet with the checksum of its buffer, a publisher
-- reads the packet through a pointer to the base class (view) and hands bytes to write, and the
-- list calls each publisher in turn. parse changes the configuration and queues commands, which
-- getCommand gives to the agent. poll asks select for the descriptors of all connections, calls
-- the handlers of the state, which read from the connections, and these change the state.
--
-- Bounds and fuel: a uint16_t, uint32_t or int is a number with its wrap-around written out. parse
-- runs on fuel, one round more than there are bytes: each line takes at least one byte. The write
-- loop has the source's three rounds. The decimal printer has one round more than the number.
-- A peer's answers to write are a function from the attempt and the offered size; the theorems
-- assume only that no more is taken than offered. The host is little-endian. The write loops of
-- the sockets run on fuel, a round for each byte and one more; the bind loop has eleven rounds,
-- which are enough because each sleep takes a second and it ends after ten. The response of the
-- digi is read in the source's thirty rounds; its buffer, which the source does not bound, grows.
--
-- Not modelled: sockets, files and terminals themselves, logging, the clock, the printing of
-- time stamps and the debug prints, and RSNPacket, which nothing constructs.
pub mod Prelude
pub mod Timestamp
pub mod Packet
pub mod Config
pub mod Publisher
pub mod Network
pub mod Connection
pub mod Agent
pub mod Session
pub mod Scenarios
