-- ===== src/Examples/Statements.antt =====
-- The theorems on the statements for the table of tasks, with helpers that change no text.
use droneengage_server.Base.{
  ◌≡◌, refl, true, false, Option, none, some, String, Json, num, str, All,
}
use droneengage_server.TaskDb.{
  lacks_account, insert_sql, Library, Params, Pool, connected, rows, get_tasks_sql_where2,
  put_condition, insert_sql,
}
use droneengage_server.TaskDb.Statements.{
  get_tasks_count, get_tasks_sids, get_tasks, del_tasks, disable_tasks, add_task,
}
use droneengage_server.TaskDb.Where.{conditions, present, join, get_tasks_sql_where2-join}
use droneengage_server.TaskDb.Connections.{
  Settled, SettledButErrors, Guarded, SettledIfMade, statements-Released,
}
use droneengage_server.TaskDb.Accounts.{IsFor, tasks-For}
use droneengage_server.Examples.Messages.{js}

abbrev same_text : Option Json → String
same_text (some (str s)) = s
same_text _ = ""

abbrev shown : Json → String
shown (str s) = s
shown _ = "1"

abbrev lib : Library
lib = record {
  protected_from_injection = same_text;
  is_valid_account_name = λ j. true;
  printed = shown;
  is_at_least_zero = λ j. false;
}

abbrev params : Params
params = record {
  larger_than_sid = some (str "4");
  account_id = some (str "team");
  party_sid = none;
  group_name = some (str "1");
  sender = none;
  receiver = none;
  message_type = some (num 1024);
  task = some (str "t");
  is_permanent = some (num 1);
  enabled = none;
  has_resultfunc = true;
  has_errfunc = true;
}

abbrev pool : Pool String
pool = record {
  connection = connected;
  answer = λ sql. rows sql;
  is_empty = λ r. false;
  count = λ r. 0;
}

get_tasks_sql_where2-join_example :
    get_tasks_sql_where2 lib params none ≡ join " AND " (present (conditions lib params none))
get_tasks_sql_where2-join_example = get_tasks_sql_where2-join lib params none

where_text :
    get_tasks_sql_where2 lib params none
    ≡ " SID  > 4 AND  accountID = 'team' AND  groupName = '1' AND  messageType = '1' AND  task = 't' AND  isPermanent = 1"
unfolding get_tasks_sql_where2 put_condition
where_text = refl

statements-Released_example :
    Settled pool.connection params (get_tasks_count lib js (some pool) params)
    × SettledButErrors pool.connection params (get_tasks_sids lib js (some pool) params)
    × Guarded
        (lacks_account lib js params)
        pool.connection
        params
        (get_tasks lib js (some pool) params)
    × Guarded
        (lacks_account lib js params)
        pool.connection
        params
        (del_tasks lib js (some pool) params)
    × Guarded
        (lacks_account lib js params)
        pool.connection
        params
        (disable_tasks lib js (some pool) params)
    × SettledIfMade
        (insert_sql lib params)
        pool.connection
        params
        (add_task lib js (some pool) params)
statements-Released_example = statements-Released lib js pool params

tasks-For_example :
    All
      (IsFor lib
        "SELECT `SID`, `party_sid`, `groupName`, `sender`, `receiver`, `messageType`, `task`, `isPermanent`, `Lastprocessed_Time`, `Creation_Time` FROM `task` WHERE "
        "team")
      (get_tasks lib js (some pool) params)
    × All (IsFor lib "DELETE FROM `task` WHERE" "team") (del_tasks lib js (some pool) params)
    × All
        (IsFor lib "UPDATE `task` SET `enabled` = 0 WHERE" "team")
        (disable_tasks lib js (some pool) params)
tasks-For_example = tasks-For lib js (some pool) params "team" refl
