-- ===== src/Lib.antt =====
-- ZAF, an actor framework for C++ over ZeroMQ: a model of its core library (core/) with the theorems
-- that make the parts correct.
--
-- Parts, and how they interact. An actor (core/zaf/actor_behavior.hpp) has an id and is named by a
-- handle. Local actors exchange pointers to messages, through ZeroMQ or, if they are of the kind
-- ActorBehaviorX, through a single-writer single-reader queue for each pair, of which the reader is
-- notified when it has gone idle. A message has a body, which a table of handlers dispatches by its
-- code. A message to another machine is serialized and handed to the Sender of a connection, which
-- gathers messages into batches; the Receiver on the other machine takes them apart and sends them on.
-- An actor runs in a thread of its own or, with others, in an executor of an engine, which may give it
-- to another executor; a group counts its actors and waits for them. A handler may request something of
-- another actor and wait for the response in a nested receive, which puts other messages aside.
--
-- Which file models which part:
--   Swsr (with Swsr/*): core/zaf/swsr_delivery_queue.hpp. `Queue` is the class with its atomic indices;
--     push, pop_some and resize are functions, and Swsr/Protocol interleaves the two threads, one
--     atomic access at a time, sequentially consistent.
--   BehaviorX: core/src/actor_behavior_x.cpp, the rounds in which an actor serves its active queues;
--     BehaviorX/Connect: the set-up of the queues, and what senders and receiver do with them, as steps.
--   Serial: core/zaf/serializer.hpp, core/src/serializer.cpp, core/zaf/serialization.hpp. A codec
--     stands for the overloads of serialize and deserialize of a type.
--   Actor: core/zaf/actor.hpp, core/src/actor.cpp, core/zaf/hash.hpp, core/src/serialization.cpp.
--   Message: core/zaf/message_body.hpp, core/src/message_body.cpp, core/zaf/message_bytes.hpp.
--   Message/Reply: core/zaf/make_message.hpp, core/src/make_message.cpp, core/zaf/requester.hpp, and the
--     sends and replies of core/zaf/actor_behavior.tpp.
--   NetGate: the Receiver of core/src/net_gate.cpp; NetGate/Sender: the Sender of the same file, its
--     four handlers as functions, and its runs as a step relation.
--   NetGate/Connection: the pings, pongs and control messages of the NetGateActor of the same file;
--     NetGate/Connection/Handshake: both ends of a connection, with what is on its way between them.
--   NetGate/Lookup: registration and lookup of actors, between two NetGateActors of the same file.
--   NetGate/Peers: its connections with their Senders and Receivers, their end, and the retrieval of
--     actors; NetGate/Binding: the choice of its port.
--     NetGate/Facade: the class that starts it and tells it to end.
--   CountPointer: core/zaf/count_pointer.hpp, on a heap of counters. CountPointer/Runs has the sequences
--     of operations, CountPointer/Once the objects that they delete.
--   Handlers: core/zaf/message_handlers.hpp, core/src/message_handlers.cpp. Message/Handler:
--     core/zaf/message_handler.hpp, one handler and the check of its argument types.
--   Engine: an executor of core/src/actor_engine.cpp with its three vectors; Engine/Pool: all executors of
--     an engine, with the commands between them, as a step relation; Engine/Load: the choice of pairs.
--   Requests: requests, replies and pending messages of core/src/actor_behavior.cpp. What arrives at an
--     actor is a list; a nested receive that waits for ever is none.
--   Delayed: delayed messages of core/src/actor_behavior.cpp, core/zaf/actor_behavior.tpp and
--     core/zaf/delayed_message.hpp, against a clock that is a function of the number of its readings;
--     Delayed/Wait: receive_once with its timeouts; Delayed/Owner: core/src/delayed_message.cpp.
--   Group: core/src/actor_group.cpp, the threads that count and the one that waits, one atomic access at a
--     time but for the test of a wait, which is one step, sequentially consistent.
--   Life: initialization, sends and termination of an actor of core/src/actor_behavior.cpp, with the
--     connections of its send socket and the messages it owns.
--   Polls: the polled sockets of core/src/actor_behavior.cpp, in two vectors.
--   System: ids of core/src/actor_system.cpp and routing ids of core/src/actor_behavior.cpp.
--   Prelude: names, lists and bits that the parts share.
--
-- Bounds and fuel. An unsigned integer of w bits is a number with % 2 ^ w where the source computes with
-- it; a size_t that counts bytes in memory does not wrap. A loop that removes as it goes runs on the
-- number of the items, which each round lowers by one. The rounds of receive_once run on fuel, of which
-- the ticks up to its deadline or up to the last delayed message are enough; the tries of random ports on
-- fuel that covers one that succeeds. An exception is the result none.
--
-- Not modelled: ZeroMQ, whose sockets are the lists of what they got; std::hash, std::sort and the
-- textual form of an endpoint, which are parameters; threads but for those of the queue, of an engine
-- and of a group; memory orders; overload resolution; the set-up of sockets but for the port of a net
-- gate, and poll loops of net gates; handlers of replies that request again, exceptions in handlers, and
-- the terminators of a group.
pub mod Prelude
pub mod Swsr
pub mod Serial
pub mod Actor
pub mod Message
pub mod NetGate
pub mod CountPointer
pub mod Handlers
pub mod BehaviorX
pub mod System
pub mod Polls
pub mod Engine
pub mod Requests
pub mod Delayed
pub mod Group
pub mod Life
