-- ===== src/Constants.antt =====
-- src/js_constants.js: the keys, routing words, message types and state codes that the modelled code uses.
use droneengage_server.Base.{ℕ, String}

-- keys of the login request and of the commands exchanged with the Auth server
abbrev pub const_cs_account_id : String
const_cs_account_id = "a"

abbrev pub const_cs_group_id : String
const_cs_group_id = "b"

abbrev pub const_cs_sender_id : String
const_cs_sender_id = "s"

abbrev pub const_cs_login_temp_key : String
const_cs_login_temp_key = "f"

abbrev pub const_cs_request_id : String
const_cs_request_id = "r"

abbrev pub const_actor_type : String
const_actor_type = "at"

abbrev pub const_permission2 : String
const_permission2 = "prm"

-- keys of a message
abbrev pub const_ws_msg_routing : String
const_ws_msg_routing = "ty"

abbrev pub const_ws_msg_routing_group : String
const_ws_msg_routing_group = "g"

abbrev pub const_ws_msg_routing_individual : String
const_ws_msg_routing_individual = "i"

abbrev pub const_ws_msg_routing_system : String
const_ws_msg_routing_system = "s"

abbrev pub const_actor_type_gcs : String
const_actor_type_gcs = "g"

abbrev pub const_actor_type_drone : String
const_actor_type_drone = "d"

-- reserved targets and the server's own sender name
abbrev pub const_ws_sender_all_gcs : String
const_ws_sender_all_gcs = "_GCS_"

abbrev pub const_ws_sender_all : String
const_ws_sender_all = "_GD_"

abbrev pub const_ws_sender_all_agents : String
const_ws_sender_all_agents = "_AGN_"

abbrev pub const_ws_sender_comm_server : String
const_ws_sender_comm_server = "_SYS_"

-- system message types
abbrev pub type_load_tasks : ℕ
type_load_tasks = 9001

abbrev pub type_save_tasks : ℕ
type_save_tasks = 9002

abbrev pub type_delete_tasks : ℕ
type_delete_tasks = 9003

abbrev pub type_disable_tasks : ℕ
type_disable_tasks = 9004

abbrev pub type_ping : ℕ
type_ping = 9005

abbrev pub type_logout_comm_server : ℕ
type_logout_comm_server = 9006

abbrev pub type_udp_proxy : ℕ
type_udp_proxy = 9008

abbrev pub type_load_mission : ℕ
type_load_mission = 9010

abbrev pub type_save_mission : ℕ
type_save_mission = 9011

abbrev pub type_delete_mission : ℕ
type_delete_mission = 9012

abbrev pub type_query_server : ℕ
type_query_server = 9013

abbrev pub type_state_server : ℕ
type_state_server = 9014

abbrev pub type_load_news : ℕ
type_load_news = 9015

abbrev pub type_save_news : ℕ
type_save_news = 9016

abbrev pub type_delete_news : ℕ
type_delete_news = 9017

abbrev pub news_push : ℕ
news_push = 9018

-- states of the connection to the storage server
abbrev pub const_storage_state_disconnected : String
const_storage_state_disconnected = "dc"

abbrev pub const_storage_state_connecting : String
const_storage_state_connecting = "cg"

abbrev pub const_storage_state_connected : String
const_storage_state_connected = "cd"

abbrev pub const_storage_state_unhealthy : String
const_storage_state_unhealthy = "uh"

abbrev pub const_storage_state_error : String
const_storage_state_error = "er"

-- the scopes of news, and the subcommand of a query
abbrev pub const_news_scope_global : String
const_news_scope_global = "global"

abbrev pub const_news_scope_account : String
const_news_scope_account = "account"

abbrev pub is_storage_server_connected : ℕ
is_storage_server_connected = 1
