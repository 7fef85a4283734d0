-- ===== src/Lib.antt =====
-- Models of the service of Synergy 2 (synergy/ in the repository), in which the computers of a profile
-- find one another, agree on the one whose keyboard and mouse are shared, and run the core program as
-- its server or as a client.
--
-- Parts, and how they interact
--   Each service runs a router (synergy/service/router). Routers connect to their neighbours and tell
--   one another which nodes they reach; a message to a node is handed from router to router. The core
--   manager (synergy/service/CoreManager.cpp) runs one core process as server or client, switches it
--   when another screen claims to be the server, and announces claims through the router. The
--   service's cloud client (synergy/service/CloudClient.cpp) reports to the cloud by HTTP requests.
--   Core programs talk protocol 1 (synergy/service/router/protocol/v1), which the proxies tunnel.
--
-- Files
--   Prelude   names of the libraries, Boolean tests, lists over native numbers, signed integers.
--   Index     boost::multi_index containers as an interface: a record of the operations that the router
--             uses and of their documented behaviour, with an implementation by lists in Index.Listed.
--   Message   Message.hpp, Message.cpp and MessageHeader.hpp of synergy/service/router: `Body`,
--             `Message`, `header`.
--   Router    Router.cpp and Router.hpp of synergy/service/router. `State.Router` is the class less
--             its sockets and timers: the two tables as sequences in the order of their ordered
--             index. Install holds the functions `integrate` for routes and for advertisements,
--             flood and broadcast; Withdraw `integrate` for revocations and `remove`; Relay `send`,
--             `forward`, `notifyOtherNodes`; Handler the signal handlers of `add`, `start` and
--             `shutdown`. What a router does to its connections and listeners is a list of events.
--             History lets the handlers run in any order; the other modules hold the proofs.
--   Profile   synergy/common/ProfileConfig.cpp, with Profile.h, Screen.h and ScreenStatus.h, in Config.
--   Arrangement UIScreen.cpp and ScreenListModel.cpp of synergy/config/lib in Screens, and
--             ScreenBBArrangement.cpp in Box, Snapping and Layout; History lets the operations run on
--             any arrangement, and the other modules hold the proofs.
--   ScreenManager synergy/config/lib/ScreenManager.cpp in State, on top of Arrangement; the other
--             modules hold the proofs.
--   Links     synergy/common/ConfigGen.cpp, the links between screens, in Edges; Nearest and Screens hold
--             the proofs, Listed the edges by lists.
--   Monitor   synergy/service/RouterErrorMonitor.cpp in Reach, with the timers as steps of a history;
--             Views and Follow hold the proofs.
--   Status    synergy/service/CoreStatusMonitor.cpp with the handler of statuses in CoreManager.cpp, in
--             Report; Sequence holds the proofs.
--   UserConfig synergy/common/UserConfig.cpp with ConfigParser.cpp, in Table; RoundTrip holds the proof.
--   Jobs      synergy/service/PriorityJobQueues.h in Queues, and the HTTP jobs of
--             synergy/service/CloudClient.cpp in Client; the session that answers requests is part
--             of the histories in Client.
--   Core      CoreProcess.cpp and CoreProcessImpl.cpp of synergy/service in Process, CoreManager.cpp
--             in Manager; History lets them run in any order, with the handlers that the calls poll
--             inside them. Rules says what a relation needs so that every call keeps it; Alive and
--             Lives, and Kept and Owners, hold two such relations, Switching and Serving what single
--             calls do.
--   Connection Connection.cpp of synergy/service/router: Sending and Receiving, with the steps of their
--             coroutines as a history; Order holds the proofs.
--   Framing   MessageReader.hpp, MessageWriter.hpp and utils/make_variant_of_nth.hpp of
--             synergy/service/router, in Frames.
--   Codec     synergy/service/router/protocol/v1: MessageCodec.hpp in Bytes and Fields, and
--             MessageTypes.hpp and MessageTypes.cpp in Types.
--
-- Conventions
--   Objects are records, a method is a function from the state before it to the state after it with
--   the events that it causes, and what throws is an Option or a result. Connections are known by ids
--   and processes by their owner. Costs of routes and sizes of queues wrap as in C++; ids and lengths
--   are plain numbers, but the server of the core process is cut to an `int` and the version of a
--   profile wraps as one. Loops are recursion on lists, and
--   nested handlers recursion on histories, so that no fuel is needed.
--   Parameters stand for code outside the repository: the containers of Boost, FlatBuffers, cpptoml, whether
--   the operating system can start a process, the order of answers. The command lines of the core
--   process are arguments, since their builder, ProcessCommand.cpp, is not modelled.
--
-- Not modelled
--   The handlers that are polled inside `Router::shutdown` and `Connection::stop`: they run before or
--   after. Sockets, TLS, timers other than the retry timer, logging, the user interface and the platforms'
--   services; the connect, accept and hello coroutines of the router; the scanner of
--   protocol 1 and the proxies; the JSON of profiles; the text of the configuration file of the core.
pub mod Arrangement
pub mod Codec
pub mod Connection
pub mod Core
pub mod Framing
pub mod Index
pub mod Jobs
pub mod Links
pub mod Message
pub mod Monitor
pub mod Prelude
pub mod Profile
pub mod Router
pub mod ScreenManager
pub mod Status
pub mod UserConfig
