-- ===== src/Lib.antt =====
-- DroneEngage communication server
--
-- The server accepts WebSockets of drones and ground stations (units), puts each into the group of its
-- account, and routes their messages: to the group, to one unit, or on to other servers. This library
-- models that core from the JavaScript under src/comm_server and states what makes it correct.
--
-- The parts, and how they interact:
--   Rooms        chat_server/js_andruav_chat_account_rooms.js and js_andruav_active_senders.js. Accounts,
--                groups, units and sockets are objects that refer to one another, so they are a heap
--                (functions from addresses to records); the tables of the source are dictionaries of
--                addresses, and the calls on sockets a log. Rooms.Registry has the functions that add and
--                delete (fn_add_member_to_AccountGroup, fn_del_member_fromGroup,
--                fn_del_member_fromAccountByName), Rooms.Sending those that send (fn_broadcast,
--                fn_sendToIndividual, fn_sendTIndividualId, fn_sendToAccountGroup). A `send` may throw,
--                which a socket's field says; fn_handleOrphanSocket then deletes the unit mid-broadcast.
--   Framing      the layout of binary messages: JSON text, then from the first NUL byte on the payload.
--   Relay        chat_server/js_chat_relay.js: the metadata (_path, _gid, _aid) of a message that goes to
--                other servers; what is handed to the parent's and the children's channel is a list.
--   Routing      chat_server/js_chat_routing.js: fn_parseMessage, and fn_parseExternalMessage
--                (Routing.Relayed). They use Rooms, Framing and Relay. The handler of system messages is
--                a parameter, which System fills.
--   Connection   chat_server/js_chat_connection.js with the waiting logins of js_andruav_comm_server.js:
--                connecting, the authentication frame and its timer, admission, messages and close.
--   S2s          js_s2s_auth.js, server_to_server/js_parent_comm_server.js (S2s.Parent) and
--                js_child_comm_server.js (S2s.ChildComm): the handshake between servers, the gate that it
--                makes, and the child's connection. Ed25519 is a parameter, as are the keys.
--   Storage      server_to_server/js_db_proxy_client.js: the client of the storage server, its state,
--                the requests that wait for an answer; Storage.Lifecycle has the connection and its
--                loss, the requests and the events.
--   Udp          js_udp_proxy.js: pairs of sockets that forward to each other, the units' proxies, their
--                blocking and recreation (Udp.Registry), and the reaper (Udp.Reaper).
--   Auth         js_andruav_comm_server.js and js_comm_server_manager_client.js: the commands of the Auth
--                server (logins and UDP proxies), the queue of messages to it, and the information card
--                (Auth.InfoCard), which lists the units (Rooms.Details).
--   System       chat_server/js_chat_system_commands.js, js_chat_tasks.js, js_chat_news.js and
--                js_chat_query_server.js: the commands to the server itself, on a state that has the rooms,
--                the storage client and the UDP proxies. The callbacks of a request's promise are a record
--                under the request's id; System.Answers runs them when the storage client's log says that
--                the request was settled (System.Answers.deliver), and likewise for UDP proxies.
--   TaskDb       js_andruavTasks_v2.js: the SQL statements on the table of tasks, as texts, and what each
--                function does with the connection (TaskDb.Statements).
--   Constants    js_constants.js. Base has what all share: dictionaries, JSON values, JSON text.
--   Examples     the theorems at concrete states.
--
-- How the code is read. A handler is a function on the state, which holds a log of what it does to the
-- world; an exception that is caught ends the handler with the state it had reached. Reading m[k] finds
-- inherited properties of objects as well as own ones; `Property` keeps the two apart where the source
-- does not ask hasOwnProperty. JSON text is a parameter with two laws of ECMAScript: what is printed reads
-- back, and holds no NUL. Loops are recursion over the list that they visit; there is no fuel. The random
-- number of the reconnection delay is a fraction below one, and its arithmetic is exact.
--
-- What the model takes as given: no plugin is configured; numbers in JSON are natural or opaque; the ids
-- that the Auth server announces are strings, and the data of its commands are objects; a sender id
-- that is no string is kept by its text; the fields of an object have distinct names; an account id
-- given to a deletion is no inherited name; no name that is used as a key of a table is `__proto__`; timers are events, so that a theorem about every run covers
-- every timing; the events of a closed UDP socket do not come; the super server's address makes a URL that the WebSocket library takes.
--
-- In System, a port that a unit may choose is one that a UDP socket can be bound to; in the text of a reply
-- the order of the properties is that of a message that has them all. In TaskDb, the helpers of the common
-- library that protect texts from injection and check account names are parameters without laws.
--
-- Not modelled: the HTTPS servers, reading of files, logging, the parsing of query strings, and
-- the code of js_chat_tasks.js after the unconditional returns, which is not reached.
pub mod Base
pub mod Framing
pub mod Constants
pub mod Relay
pub mod Rooms
pub mod Routing
pub mod Connection
pub mod S2s
pub mod Storage
pub mod Udp
pub mod Auth
pub mod System
pub mod TaskDb
pub mod Examples
