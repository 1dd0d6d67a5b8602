-- ===== src/Examples/Systems.antt =====
-- The theorems on the commands to the server itself at the two units, with a connected storage client on
-- which a request is pending.
use droneengage_server.Base.{
  ◌≡◌, refl, true, false, Option, none, some, [], ◌∷◌, String, get, Has, Json, Fields, num, str,
  obj, field, end, prop, set_opt, property_key, is_nullish, opt_eq, str_prop, Cell, cell_text,
  cell_text-IsJsonText, ◌⊎◌,
}
use droneengage_server.Framing.{frame}
use droneengage_server.Rooms.Isolation.{Added}
use droneengage_server.Routing.{parse_message}
use droneengage_server.Routing.Local.{Within}
use droneengage_server.Storage.{is_pending}
use droneengage_server.Storage.Lifecycle.{closed}
use droneengage_server.System.{System, Pending, load_tasks, account_of_login, socket_name}
use droneengage_server.System.Answers.{push_message, is_for_all, on_news_push}
use droneengage_server.System.Tasks.{Inputs}
use droneengage_server.System.Proxies.{PortRules}
use droneengage_server.System.Commands.{on_system_message, on_storage_event, system_handler}
use droneengage_server.System.Replies.{Replied, To}
use droneengage_server.System.Dispatch.{on_system_message-Replied}
use droneengage_server.System.Scope.{ScopedTo}
use droneengage_server.System.Accounts.{on_system_message-ScopedTo}
use droneengage_server.System.Complete.{parse_message-answered}
use droneengage_server.System.Ending.{error_reply}
use droneengage_server.System.Closing.{closed-answers}
use droneengage_server.System.Pushing.{ToAccount, push-isolated}
use droneengage_server.Examples.{drone, two_units, two_units-IsLinked, two_units-facts}
use droneengage_server.Examples.Messages.{js, server, config, payload}
use droneengage_server.Examples.Services.{world, client}
use droneengage_server.Examples.Proxies.{nothing_opened, env}

abbrev parse_body : String → Option Json
parse_body t = none

abbrev rules : PortRules
rules = record { allow_fixed_port = false; bound_port = λ j. 0 }

abbrev inputs : Inputs
inputs = record { rid = "r2"; task_id = "t1"; now = 5 }

-- the ground station waits for its tasks
abbrev waiting_gcs : Pending
waiting_gcs = record { ws = 2; message = end; body = end; command = load_tasks }

abbrev system : System Cell
system = record {
  server = server;
  storage = record client {
    authenticated = true;
    connection_state = "cd";
    pending_requests = "r1" ∷ [];
  };
  udp = nothing_opened;
  pending = ("r1", waiting_gcs) ∷ [];
  proxy_requests = [];
}

-- a request for the missions of a unit
abbrev missions : Fields
missions = field "ty" (str "s") (
    field "mt" (num 9010)
      (field "ms" (obj (field "unitId" (str "drone1") (field "accountId" (str "other") end))) end))

on_system_message-Replied_example :
    Replied 1 system
      (on_system_message cell_text js parse_body world env rules inputs missions 1 system)
on_system_message-Replied_example =
    on_system_message-Replied cell_text js parse_body world env rules inputs missions 1 system

on_system_message-ScopedTo_example :
    ScopedTo
      (account_of_login 1 system)
      system
      (on_system_message cell_text js parse_body world env rules inputs missions 1 system)
on_system_message-ScopedTo_example =
    on_system_message-ScopedTo cell_text js parse_body world env rules inputs missions 1 system

parse_message-answered_example :
    Added
      (λ call.
        Within two_units 1
          (frame cell_text (obj (set_opt "p" drone.prm missions)) payload)
          true
          call
        ⊎ To 1 call)
      two_units
      (parse_message cell_text js config
        (system_handler cell_text js parse_body world env rules inputs system)
        1
        (frame cell_text (obj missions) payload)
        true
        server).rooms
parse_message-answered_example =
    parse_message-answered cell_text js config parse_body world env rules inputs system 1 drone
      cell_text-IsJsonText missions payload (record { m_ttx = 0; m_btx = 0 }) server refl
      two_units-IsLinked two_units-facts.4 two_units-facts.2

system-facts :
    (is_pending "r1" system.storage.pending_requests ≡ true)
    × (get "r1" system.pending ≡ some waiting_gcs)
unfolding is_pending get
system-facts = (refl, refl)

closed-answers_example :
    Has
      (error_reply cell_text (socket_name 2 system) waiting_gcs)
      (on_storage_event cell_text js parse_body world env rules
        (λ j. "")
        (closed 0 0)
        system).server.rooms.calls
closed-answers_example =
    closed-answers cell_text js parse_body env rules world (λ j. "") 0 0 "r1" waiting_gcs system
      system-facts.0 system-facts.1 two_units-facts.9

abbrev news : Fields
news = field "account_id" (str "team") (field "body" (str "hello") end)

abbrev pushed : Fields
pushed = field "news" (obj news) end

news-facts : (prop "news" pushed ≡ some (obj news)) × (is_for_all news ≡ false)
unfolding prop is_for_all opt_eq str_prop is_nullish
news-facts = (refl, refl)

push-isolated_example :
    Added
      (ToAccount
        (cell_text.stringify (obj (push_message (obj news))))
        (some (str "_SYS_"))
        (property_key js (prop "account_id" news))
        two_units)
      two_units
      (on_news_push cell_text js (some (obj pushed)) system).server.rooms
push-isolated_example =
    push-isolated cell_text js pushed news system two_units-IsLinked news-facts.0 news-facts.1
