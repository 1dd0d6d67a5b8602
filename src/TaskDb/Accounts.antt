-- ===== src/TaskDb/Accounts.antt =====
-- About the functions of js_andruavTasks_v2.js: the accounts that their statements are for.
use droneengage_server.Base.{
  ◌≡◌, ap, Bool, true, false, inl, inr, Option, none, some, List, [], ◌∷◌, ◌++◌, Has, All,
  All-append, arith, some-injective, String, ◌+++◌, Bool-cases, Option-cases, Json, str, num,
  Coercions,
}
use droneengage_server.TaskDb.{
  Library, Params, Connection, refused, connected, Reply, failed, rows, Pool, Action, query, take,
  release, report_error, result, when, of_account, get_tasks_sql_where, get_tasks_sql_where2,
  lacks_account,
}
use droneengage_server.TaskDb.Statements.{
  on_rows, run, with_connection, guarded, get_tasks, del_tasks, disable_tasks,
}
use droneengage_server.TaskDb.Where.{conditions, present, join, get_tasks_sql_where2-join}

-- A query whose where clause has the condition on the account.
abbrev pub IsFor : {R : Type 0} → Library → String → String → Action R → Type 0
IsFor lib start account (query sql) =
    (cs : List String) × (sql ≡ start +++ join " AND " cs)
    × Has (" accountID = '" +++ lib.protected_from_injection (some (str account)) +++ "'") cs
IsFor lib start account _ = Unit

present-Has : (t : String) (os : List (Option String)) → Has (some t) os → Has t (present os)
present-Has t [] h = absurd h
present-Has t (none ∷ os) (inl e) = absurd (ground (arith, e))
present-Has t (some u ∷ os) (inl e) = inl (some-injective u t e)
present-Has t (none ∷ os) (inr h) = present-Has t os h
present-Has t (some u ∷ os) (inr h) = inr (present-Has t os h)

module _ {R : Type 0} (lib : Library) (js : Coercions) (pool : Option (Pool R)) (p : Params)
    (account : String) (given : p.account_id ≡ some (str account)) where
  abbrev For : String → List (Action R) → Type 0
  For start = All (IsFor lib start account)

  when-For :
      (start : String) (b : Bool) (a : Action R) → IsFor lib start account a → For start (when b a)
  when-For start true a h = (h, tt)
  when-For start false a h = tt

  run-For :
      (start : String) (enabled : Option Json) (db : Pool R)
      → For start (run db (on_rows p) p (start +++ get_tasks_sql_where2 lib p enabled))
  unfolding run on_rows
  run-For start enabled db = (
    (
      present (conditions lib p enabled),
      ap (λ t. start +++ t) (get_tasks_sql_where2-join lib p enabled),
      present-Has _ (conditions lib p enabled) (inr (inl (ap (of_account lib) given))),
    ),
    (tt, called (db.answer _)),
  )
    where
      called :
          (reply : Reply R)
          → All (IsFor {R = R} lib start account) (elim reply [
            | failed ↦ when p.has_errfunc report_error
            | rows r ↦ when p.has_resultfunc (result r)
          ])
      called failed = when-For start p.has_errfunc report_error tt
      called (rows r) = when-For start p.has_resultfunc (result r) tt

  with_connection-For :
      (start : String) (db : Pool R) (body : List (Action R))
      → For start body
      → For start (with_connection db p body)
  unfolding with_connection
  with_connection-For start db body h = taken db.connection
    where
      taken :
          (k : Connection)
          → All (IsFor {R = R} lib start account) (elim k [
            | refused b ↦ when b take ++ when b release ++ when p.has_errfunc report_error
            | connected ↦ take ∷ body
          ])
      taken connected = (tt, h)
      taken (refused b) =
          All-append _ (when b take ++ when b release) (when p.has_errfunc report_error)
            (All-append _ (when b take) (when b release) (when-For start b take tt)
              (when-For start b release tt))
            (when-For start p.has_errfunc report_error tt)

  guarded-For :
      (start : String) (enabled : Option Json)
      → For start (guarded lib js pool p (start +++ get_tasks_sql_where2 lib p enabled))
  unfolding guarded
  guarded-For start enabled = elim (Bool-cases (lacks_account lib js p)) [
    | inl e ↦ rw (e, guarded) tt
    | inr e ↦ elim (Option-cases pool) [
      | inl n ↦ rw (e, n, guarded) tt
      | inr (db, n) ↦ rw (e, n, guarded) (with_connection-For start db _ (run-For start enabled db))
    ]
  ]

  -- For an account that is a text, whatever the other parameters are, the statements by which tasks are
  -- read, deleted and disabled have the condition on that account among those of their where clauses.
  pub tasks-For :
      For
        "SELECT `SID`, `party_sid`, `groupName`, `sender`, `receiver`, `messageType`, `task`, `isPermanent`, `Lastprocessed_Time`, `Creation_Time` FROM `task` WHERE "
        (get_tasks lib js pool p)
      × For "DELETE FROM `task` WHERE" (del_tasks lib js pool p)
      × For "UPDATE `task` SET `enabled` = 0 WHERE" (disable_tasks lib js pool p)
  unfolding get_tasks del_tasks disable_tasks get_tasks_sql_where
  tasks-For = (guarded-For _ (some (num 1)), guarded-For _ p.enabled, guarded-For _ p.enabled)
