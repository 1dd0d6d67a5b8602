-- ===== src/TaskDb/Statements.antt =====
-- The exported functions of js_andruavTasks_v2.js: the statements that they send, and what they do with
-- the connection and the result.
use droneengage_server.Base.{
  not, Option, none, some, List, [], ◌∷◌, ◌++◌, String, ◌+++◌, if◌then◌else◌, Coercions,
}
use droneengage_server.TaskDb.{
  Library, Params, refused, connected, failed, rows, Pool, Action, query, take, release,
  report_error, threw, result, result_count, when, get_tasks_sql_where, get_tasks_sql_where2,
  lacks_account, insert_sql,
}

module _ {R : Type 0} where
  -- the callback of a query that ends in rows: `fn_fn_get_tasks_count` answers twice, or throws, on none
  unfoldable pub on_rows : Params → R → List (Action R)
  on_rows p r = when p.has_resultfunc (result r)

  unfoldable pub on_count : Pool R → Params → R → List (Action R)
  on_count pool p r =
      if not p.has_resultfunc
      then threw ∷ []
      else if pool.is_empty r
      then result_count 0 ∷ threw ∷ []
      else result_count (pool.count r) ∷ []

  -- a statement on a connection: the query, the release, and the callback
  unfoldable pub run : Pool R → (R → List (Action R)) → Params → String → List (Action R)
  run pool callback p sql =
      query sql
      ∷ release
      ∷ (elim (pool.answer sql) [ failed ↦ when p.has_errfunc report_error | rows r ↦ callback r ])

  -- `getConnection` and its callback
  unfoldable pub with_connection : Pool R → Params → List (Action R) → List (Action R)
  with_connection pool p body = elim pool.connection [
    | refused given ↦ when given take ++ when given release ++ when p.has_errfunc report_error
    | connected ↦ take ∷ body
  ]

module _ {R : Type 0} (lib : Library) (js : Coercions) (pool : Option (Pool R)) (p : Params) where
  -- `fn_fn_get_tasks_count`; without a pool the exception is caught
  unfoldable pub get_tasks_count : List (Action R)
  get_tasks_count = elim pool [
    | none ↦ []
    | some db ↦ with_connection db p (
        run db (on_count db p) p
          ("SELECT COUNT('SID') AS COUNT FROM `task` WHERE " +++ get_tasks_sql_where lib p))
  ]

  -- `fn_fn_get_tasks_sids`, which keeps a connection that comes with an error
  unfoldable pub get_tasks_sids : List (Action R)
  get_tasks_sids = elim pool [
    | none ↦ []
    | some db ↦ elim db.connection [
      | refused given ↦ when given take ++ when p.has_errfunc report_error
      | connected ↦
          take
          ∷ run db (on_rows p) p
              ("SELECT SID , `messageType` FROM `task` WHERE " +++ get_tasks_sql_where lib p)
    ]
  ]

  -- a function with the guard on the account
  unfoldable pub guarded : String → List (Action R)
  guarded sql =
      if lacks_account lib js p
      then []
      else (elim pool [ none ↦ [] | some db ↦ with_connection db p (run db (on_rows p) p sql) ])

  -- `fn_get_tasks`
  unfoldable pub get_tasks : List (Action R)
  get_tasks = guarded (
      "SELECT `SID`, `party_sid`, `groupName`, `sender`, `receiver`, `messageType`, `task`, `isPermanent`, `Lastprocessed_Time`, `Creation_Time` FROM `task` WHERE "
      +++ get_tasks_sql_where lib p)

  -- `fn_del_tasks`
  unfoldable pub del_tasks : List (Action R)
  del_tasks = guarded ("DELETE FROM `task` WHERE" +++ get_tasks_sql_where2 lib p p.enabled)

  -- `fn_disable_tasks`
  unfoldable pub disable_tasks : List (Action R)
  disable_tasks =
      guarded ("UPDATE `task` SET `enabled` = 0 WHERE" +++ get_tasks_sql_where2 lib p p.enabled)

  -- `fn_add_task`; the exception of its callback leaves the connection unreleased
  unfoldable pub add_task : List (Action R)
  add_task = elim pool [
    | none ↦ []
    | some db ↦
        with_connection db p
          (elim (insert_sql lib p) [ none ↦ threw ∷ [] | some sql ↦ run db (on_rows p) p sql ])
  ]
