-- ===== src/TaskDb/Connections.antt =====
-- About the functions of js_andruavTasks_v2.js: the connections that they take.
use droneengage_server.Base.{
  ◌≡◌, refl, Bool, true, false, inl, inr, Option, none, some, List, [], ◌∷◌, All, String,
  Bool-cases, Coercions,
}
use droneengage_server.TaskDb.{
  Library, Params, Connection, refused, connected, Reply, failed, rows, Pool, Action, query, take,
  release, report_error, threw, result, result_count, when, lacks_account, insert_sql,
}
use droneengage_server.TaskDb.Statements.{
  on_rows, on_count, run, with_connection, get_tasks_count, get_tasks_sids, guarded, get_tasks,
  del_tasks, disable_tasks, add_task,
}

-- what a callback does
abbrev pub IsCallback : {R : Type 0} → Action R → Type 0
IsCallback (query sql) = ⊥
IsCallback take = ⊥
IsCallback release = ⊥
IsCallback report_error = Unit
IsCallback threw = Unit
IsCallback (result r) = Unit
IsCallback (result_count n) = Unit

-- A connection is taken for one query and given back before any callback.
abbrev pub Released : {R : Type 0} → List (Action R) → Type 0
Released {R} as' =
    (sql : String) × (rest : List (Action R)) × (as' ≡ take ∷ query sql ∷ release ∷ rest)
    × All IsCallback rest

-- What a function does, by how the pool answers, where it gives every connection back: also one that
-- comes with an error, before the error's callback.
abbrev pub Settled : {R : Type 0} → Connection → Params → List (Action R) → Type 0
Settled (refused true) p as' = as' ≡ take ∷ release ∷ when p.has_errfunc report_error
Settled (refused false) p as' = as' ≡ when p.has_errfunc report_error
Settled connected p as' = Released as'

-- The same where a connection that comes with an error is kept.
abbrev pub SettledButErrors : {R : Type 0} → Connection → Params → List (Action R) → Type 0
SettledButErrors (refused true) p as' = as' ≡ take ∷ when p.has_errfunc report_error
SettledButErrors (refused false) p as' = as' ≡ when p.has_errfunc report_error
SettledButErrors connected p as' = Released as'

-- Nothing at all where the guard on the account stops the function.
abbrev pub Guarded : {R : Type 0} → Bool → Connection → Params → List (Action R) → Type 0
Guarded true con p as' = as' ≡ []
Guarded false con p as' = Settled con p as'

-- The same for the INSERT, whose connection is kept where its text cannot be made.
abbrev pub SettledIfMade :
    {R : Type 0} → Option String → Connection → Params → List (Action R) → Type 0
SettledIfMade (some sql) con p as' = Settled con p as'
SettledIfMade none connected p as' = as' ≡ take ∷ threw ∷ []
SettledIfMade none (refused given) p as' = Settled (refused given) p as'

module _ {R : Type 0} where
  when-IsCallback : (b : Bool) (a : Action R) → IsCallback a → All IsCallback (when b a)
  when-IsCallback true a h = (h, tt)
  when-IsCallback false a h = tt

  on_count-IsCallback : (db : Pool R) (p : Params) (r : R) → All IsCallback (on_count db p r)
  unfolding on_count
  on_count-IsCallback db p r = elim (Bool-cases p.has_resultfunc) [
    | inr e ↦ rw e (tt, tt)
    | inl e ↦ elim (Bool-cases (db.is_empty r)) [
      | inl n ↦ rw (e, n) (tt, (tt, tt))
      | inr n ↦ rw (e, n) (tt, tt)
    ]
  ]

  run-Released :
      (db : Pool R) (callback : R → List (Action R)) (p : Params) (sql : String)
      → ((r : R) → All IsCallback (callback r))
      → Released (take ∷ run db callback p sql)
  unfolding run
  run-Released db callback p sql h = (sql, _, refl, called (db.answer sql))
    where
      called :
          (reply : Reply R)
          → All
              (IsCallback {R = R})
              (elim reply [ failed ↦ when p.has_errfunc report_error | rows r ↦ callback r ])
      called failed = when-IsCallback p.has_errfunc report_error tt
      called (rows r) = h r

  -- a body that is one query, on a connection
  with_connection-Settled :
      (db : Pool R) (p : Params) (body : List (Action R)) (con : Connection)
      → db.connection ≡ con
      → Released (take ∷ body)
      → Settled con p (with_connection db p body)
  unfolding with_connection
  with_connection-Settled db p body (refused true) e h = rw (e, with_connection) refl
  with_connection-Settled db p body (refused false) e h = rw (e, with_connection) refl
  with_connection-Settled db p body connected e h = rw (e, with_connection) h

module _ {R : Type 0} (lib : Library) (js : Coercions) (db : Pool R) (p : Params) where
  on_rows-IsCallback : (r : R) → All IsCallback (on_rows p r)
  unfolding on_rows
  on_rows-IsCallback r = when-IsCallback p.has_resultfunc (result r) tt

  rows-Settled :
      (sql : String) → Settled db.connection p (with_connection db p (run db (on_rows p) p sql))
  rows-Settled sql =
      with_connection-Settled db p _ db.connection refl
        (run-Released db (on_rows p) p sql on_rows-IsCallback)

  guarded-Guarded :
      (sql : String)
      → Guarded (lacks_account lib js p) db.connection p (guarded lib js (some db) p sql)
  unfolding guarded
  guarded-Guarded sql = elim (Bool-cases (lacks_account lib js p)) [
    | inl e ↦ rw (e, guarded) refl
    | inr e ↦ rw (e, guarded) (rows-Settled sql)
  ]

  get_tasks_sids-Settled :
      (con : Connection)
      → db.connection ≡ con
      → SettledButErrors con p (get_tasks_sids lib js (some db) p)
  unfolding get_tasks_sids
  get_tasks_sids-Settled (refused true) e = rw (e, get_tasks_sids) refl
  get_tasks_sids-Settled (refused false) e = rw (e, get_tasks_sids) refl
  get_tasks_sids-Settled connected e =
      rw (e, get_tasks_sids) (run-Released db (on_rows p) p _ on_rows-IsCallback)

  add_task-Settled :
      (made : Option String) (con : Connection)
      → insert_sql lib p ≡ made
      → db.connection ≡ con
      → SettledIfMade made con p (add_task lib js (some db) p)
  unfolding add_task with_connection
  add_task-Settled (some sql) con m e = rw (m, add_task) (rw⁻¹ e (rows-Settled sql))
  add_task-Settled none connected m e = rw (e, add_task, with_connection) (rw m refl)
  add_task-Settled none (refused true) m e = rw (e, add_task, with_connection) refl
  add_task-Settled none (refused false) m e = rw (e, add_task, with_connection) refl

  -- However the pool answers, each of the six functions takes a connection for exactly one query and gives
  -- it back before any callback, but: a function whose guard stops it does nothing; a connection that comes
  -- with an error is given back without a query, except by the function that reads SIDs, which keeps it; and
  -- the function that adds a task keeps its connection where the text of the INSERT cannot be made.
  pub statements-Released :
      Settled db.connection p (get_tasks_count lib js (some db) p)
      × SettledButErrors db.connection p (get_tasks_sids lib js (some db) p)
      × Guarded (lacks_account lib js p) db.connection p (get_tasks lib js (some db) p)
      × Guarded (lacks_account lib js p) db.connection p (del_tasks lib js (some db) p)
      × Guarded (lacks_account lib js p) db.connection p (disable_tasks lib js (some db) p)
      × SettledIfMade (insert_sql lib p) db.connection p (add_task lib js (some db) p)
  unfolding get_tasks_count get_tasks del_tasks disable_tasks
  statements-Released = (
    with_connection-Settled db p _ db.connection refl
        (run-Released db (on_count db p) p _ (on_count-IsCallback db p)),
    get_tasks_sids-Settled db.connection refl,
    guarded-Guarded _,
    guarded-Guarded _,
    guarded-Guarded _,
    add_task-Settled (insert_sql lib p) db.connection refl refl,
  )
