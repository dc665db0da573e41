-- ===== src/Lib.antt =====
-- Net-blocks: protocol stacks that are put together from modules, and the runtime that the generated
-- code calls.
--
-- The parts and how they interact. A protocol is a list of modules that the framework registers
-- (src/core/framework.cpp). Each module has hooks for establishing and closing a connection, for
-- sending and for receiving; a path of the framework runs one kind of hook through all modules. Modules
-- add members to the layout of the packets (src/core/packet.cpp), and read and write them with
-- the integer access of include/core/packet.h. The hooks keep their data in the connection and
-- in the network state, and call the runtime (runtime/nb_runtime.c, runtime/nb_timer.c) for queues,
-- timers and the transport. The C++ code stages this with the BuildIt library: what is modelled is the
-- code that runs in the end, with the configuration as arguments.
--
-- Which file models which part:
--   Base        numbers, tests, lists and words, shared by all modules
--   Packet      include/core/packet.h: integer members and arrays (`set_integer`, `get_integer`,
--               `set_custom_range`, `get_offset`); memory is a function from addresses to bytes
--   Layout      src/core/packet.cpp: `add_member`, `fix_layout`, `get_total_size`; a pointer to
--               a member is its name
--   Framework   include/core/module.h, include/core/framework.h, src/core/framework.cpp:
--               `register_module`, the paths, `finalize_paths`; hooks act on an abstract state
--   Queue       runtime/nb_data_queue.h and runtime/nb_runtime.c: the queues of a connection
--   Timer       runtime/nb_timer.h and runtime/nb_timer.c: a pointer to a timer is its place in
--               the table
--   Identifier  src/modules/identifier_module.cpp: the table of connections and the hooks; also the
--               routing table lookup of runtime/nb_runtime.c
--   Inorder     src/modules/inorder_module.cpp: sequence numbers and the three strategies
--   Signaling   src/modules/signaling_module.cpp and `nb__cycle_connections` of runtime/nb_runtime.c
--               for one connection: when it is reported as established; Signaling/Packet has the packet
--               that goes out when a connection is established
--   Accept      `nb__accept` of runtime/nb_runtime.c; Accept/Listen follows the first packet of a source
--   Posix       runtime/posix/src/network.c: descriptors and source ports, and the calls that wait
--               for the stack; what the generated stack offers to them is the record `Stack`
--   Reliable    src/modules/reliable_module.cpp: redelivery by timers, and acknowledgements
--   Protocol    src/impls/simple.cpp with `init_module` of all modules: from a configuration to the
--               layout of packets, the members of connections and the order of the modules;
--               Protocol/Uses has the members that the hooks name, Protocol/Fields the packet as a record
--   Interface   src/modules/interface_module.cpp and the wrappers of src/core/impl.cpp: the functions
--               that the stack is generated from, over the paths of Framework
--   Linux       runtime/nb_linux_transport.c: receiving, sending and buffers
--   Checksum    src/modules/checksum_module.cpp, over the members of Packet
--   Routing     src/modules/routing_module.cpp and `nb__do_ip_checksum` of runtime/nb_runtime.c
--   Payload     src/modules/payload_module.cpp and src/modules/network_module.cpp
--   Ipc         runtime/nb_ipc_transport.c: sending with simulated loss and reordering, receiving;
--               Ipc/Delivered follows a payload through the modules and the socket
--   Hub         utils/hub/ipc_hub.c: the program that relays the packets of the IPC transport
--   Runtime     runtime/nb_runtime.c: the step of the main loop, the round over all connections, and
--               the time
--   Mlx5        runtime/nb_mlx5_transport.cc and runtime/mlx5_impl/transport.cc: the indices into
--               the rings of the network card, which writes the entries of the completion queue;
--               Mlx5/Device is the search for a card with the requested name
--
-- Bounds and fuel. Native natural numbers stand for machine integers, with the wrap-around written out.
-- The search of `nb__insert_timer` runs on fuel of one more than the size of the table, which is more
-- than a list of distinct timers needs. The loop that releases shelved packets runs on fuel
-- of one more than the size of the buffer: each round empties a place. The bits of a range are counted
-- on fuel of the width of the type. The loop of `nb__accept` passes or removes an element in each
-- round, so that fuel of the number of elements is enough. Offsets by name follow `m_prev` on fuel of the
-- number of members. `nb__check_timers` has fuel for the timers that are due, which its callback starts
-- again to fire later. The loop that posts receive buffers has fuel of one more than the buffers' packets
-- to post, 512 of which it takes off in a round. That over the ports of a card has fuel 256, the number
-- of values of its counter. The loop of the hub has fuel of one more than its
-- sockets: each round passes or removes one. The calls of the POSIX layer that wait for an event have fuel
-- for the steps of the main loop that pass until it comes.
--
-- Assumptions. The machine is little-endian and `char` has 8 bits. `malloc` succeeds, and gives
-- memory that holds anything. What `nb__run_ingress_step` does to the queue of `nb__accept` is an argument of
-- the model; that it adds nothing is a hypothesis. A callback
-- of the application is recorded as an event. `write` succeeds on the socket, and so do the calls of the
-- verbs library. `ntohs` and `htons` are arguments that are inverse to each other.
--
-- Protocol. The settings that a layout depends on have 240 combinations, and what holds of a layout in each
-- of them is checked by evaluation, with the members that may have a custom range as variables; the numbers
-- of bytes are those without custom ranges.
--
-- Not modelled: the staging and printing of code (src/core/connection.cpp, the rest of src/core/impl.cpp,
-- src/core/genplugin.cpp, src/core/runtime.cpp); the set-up of sockets and cards, which is system calls and
-- calls of the verbs library only, but for the search of a device; output for debugging; the driver's
-- declarations and the allocator beside runtime/mlx5_impl/transport.cc.
pub mod Base
pub mod Packet
pub mod Layout
pub mod Framework
pub mod Queue
pub mod Timer
pub mod Identifier
pub mod Inorder
pub mod Signaling
pub mod Ipc
pub mod Accept
pub mod Posix
pub mod Mlx5
pub mod Reliable
pub mod Checksum
pub mod Routing
pub mod Payload
pub mod Hub
pub mod Runtime
pub mod Protocol
pub mod Interface
pub mod Linux
