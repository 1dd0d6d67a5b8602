-- ===== src/TaskDb.antt =====
-- src/comm_server/js_andruavTasks_v2.js: the tasks in a MySQL table. The pool, what it answers, and the
-- helpers of the common library are parameters; what a function does to them is a list of actions.
pub mod Where
pub mod Statements
pub mod Connections
pub mod Accounts
use droneengage_server.Base.{
  ℕ, Bool, true, false, ◌||◌, Option, none, some, List, [], ◌∷◌, ◌++◌, String, ◌+++◌, if◌then◌else◌,
  is_some, Json, Fields, null, num, obj, str, prop, not_null, is_blank, Coercions,
}

-- `hlp_strings`, and the text of a value that is printed as it is
pub record Library : Type 0 where
  -- of a value that may be `undefined`
  pub protected_from_injection : Option Json → String
  pub is_valid_account_name : Json → Bool
  pub printed : Json → String
  -- `v >= 0`
  pub is_at_least_zero : Json → Bool

-- `params`: a parameter that is missing is `none`
pub record Params : Type 0 where
  pub larger_than_sid : Option Json
  pub account_id : Option Json
  pub party_sid : Option Json
  pub group_name : Option Json
  pub sender : Option Json
  pub receiver : Option Json
  pub message_type : Option Json
  pub task : Option Json
  pub is_permanent : Option Json
  pub enabled : Option Json
  pub has_resultfunc : Bool
  pub has_errfunc : Bool

-- How the pool hands out a connection, and how a query ends.
pub data Connection : Type 0 where
  refused : Bool → Connection
  connected : Connection

pub data Reply (R : Type 0) : Type 0 where
  failed : Reply R
  rows : R → Reply R

pub record Pool (R : Type 0) : Type 0 where
  pub connection : Connection
  pub answer : String → Reply R
  -- `rows.length == 0`, and `rows[0].COUNT` where there is a row
  pub is_empty : R → Bool
  pub count : R → ℕ

pub data Action (R : Type 0) : Type 0 where
  query : String → Action R
  -- the pool hands a connection to the callback, and `dbConnection.release()`
  take release report_error threw : Action R
  result : R → Action R
  result_count : ℕ → Action R

abbrev pub when {ℓ} : {A : Type ℓ} → Bool → A → List A
when b a = if b then a ∷ [] else []

module _ (lib : Library) where
  -- the text of a condition on a column, where its parameter is there
  abbrev pub quoted : String → Option Json → Option String
  quoted column v = elim (not_null v) [
    | none ↦ none
    | some j ↦ some (column +++ lib.protected_from_injection (some j) +++ "'")
  ]

  abbrev pub larger_sid : Option Json → Option String
  larger_sid (some (str s)) = some (" SID  > " +++ lib.protected_from_injection (some (str s)))
  larger_sid _ = none

  abbrev pub of_account : Option Json → Option String
  of_account (some (str s)) =
      some (" accountID = '" +++ lib.protected_from_injection (some (str s)) +++ "'")
  of_account _ = none

  abbrev pub of_type : Option Json → Option String
  of_type v = elim (not_null v) [
    | none ↦ none
    | some j ↦
        some
          (" messageType = '" +++ lib.protected_from_injection (some (str (lib.printed j))) +++ "'")
  ]

  abbrev pub printed_as : String → Option Json → Option String
  printed_as column v = elim (not_null v) [ none ↦ none | some j ↦ some (column +++ lib.printed j) ]

  -- one `if` of the builder: the text so far, and `putAnd`
  unfoldable pub put_condition : Option String → String × Bool → String × Bool
  put_condition none (sql, put_and) = (sql, put_and)
  put_condition (some condition) (sql, put_and) =
      ((if put_and then sql +++ " AND " else sql) +++ condition, true)

  -- `fn_getTasksSQLWhere2`
  unfoldable pub get_tasks_sql_where2 : Params → Option Json → String
  get_tasks_sql_where2 p enabled =
      let sql₁ = put_condition (larger_sid p.larger_than_sid) ("", false) in
      let sql₂ = put_condition (of_account p.account_id) sql₁ in
      let sql₃ = put_condition (quoted " party_sid = '" p.party_sid) sql₂ in
      let sql₄ = put_condition (quoted " groupName = '" p.group_name) sql₃ in
      let sql₅ = put_condition (quoted " sender = '" p.sender) sql₄ in
      let sql₆ = put_condition (quoted " receiver = '" p.receiver) sql₅ in
      let sql₇ = put_condition (of_type p.message_type) sql₆ in
      let sql₈ = put_condition (quoted " task = '" p.task) sql₇ in
      let sql₉ = put_condition (printed_as " isPermanent = " p.is_permanent) sql₈ in
      (put_condition (printed_as " enabled = " enabled) sql₉).0

  -- `_getTasksSQLWhere`
  unfoldable pub get_tasks_sql_where : Params → String
  get_tasks_sql_where p = get_tasks_sql_where2 p (some (num 1))

  unfoldable pub exceeds_access_code : Option Json → Bool
  exceeds_access_code (some (obj fs)) = elim (prop "CONST_ACCESSCODE_MAX_LENGTH" fs) [
    | none ↦ false
    | some v ↦ lib.is_at_least_zero v
  ]
  exceeds_access_code _ = false

  unfoldable pub has_bad_name : Option Json → Bool
  has_bad_name none = false
  has_bad_name (some j) = if lib.is_valid_account_name j then false else true

  -- the guard on the account
  unfoldable pub lacks_account : Coercions → Params → Bool
  lacks_account js p =
      is_blank js p.account_id || exceeds_access_code p.account_id || has_bad_name p.account_id

  -- the columns that `fn_add_task` names if they are given, and their values
  unfoldable pub column : String → Option Json → String
  column name v = if is_some v then name else ""

  unfoldable pub quoted_value : Option Json → String
  quoted_value none = ""
  quoted_value (some j) = "'" +++ lib.protected_from_injection (some j) +++ "',"

  unfoldable pub bare_value : Option Json → String
  bare_value none = ""
  bare_value (some j) = lib.protected_from_injection (some j) +++ ","

  unfoldable pub printed_value : Json → String
  printed_value j = lib.protected_from_injection (some (str (lib.printed j)))

  -- the text of the INSERT: `none` where `toString` of a missing value throws
  unfoldable pub insert_sql : Params → Option String
  insert_sql p = elim (not_null p.message_type) [
    | none ↦ none
    | some message_type ↦ elim (not_null p.is_permanent) [
      | none ↦ none
      | some is_permanent ↦ some (
          "INSERT INTO `task`("
          +++ column "`accountID`, " p.account_id
          +++ column "`party_sid`, " p.party_sid
          +++ column "`groupName`, " p.group_name
          +++ column "`sender`, " p.sender
          +++ column "`receiver`, " p.receiver
          +++ " `messageType`, `task`, `isPermanent`) VALUES ("
          +++ quoted_value p.account_id
          +++ quoted_value p.party_sid
          +++ bare_value p.group_name
          +++ quoted_value p.sender
          +++ quoted_value p.receiver
          +++ printed_value message_type
          +++ ",'"
          +++ lib.protected_from_injection p.task
          +++ "',"
          +++ printed_value is_permanent
          +++ ");")
    ]
  ]
