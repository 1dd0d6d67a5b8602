-- ===== src/TaskDb/Where.antt =====
-- About the where clause that js_andruavTasks_v2.js builds.
use droneengage_server.Base.{
  ◌≡◌, refl, sym, ap, ◌∙◌, Bool, true, false, Option, none, some, List, [], ◌∷◌, String, ◌+++◌,
  text_append-nil, nil-text_append, text_append_assoc, Json,
}
use droneengage_server.TaskDb.{
  Library, Params, larger_sid, of_account, quoted, of_type, printed_as, put_condition,
  get_tasks_sql_where2,
}

-- The conditions in the order of the columns, of which the missing ones are left out.
abbrev pub conditions : Library → Params → Option Json → List (Option String)
conditions lib p enabled =
    larger_sid lib p.larger_than_sid
    ∷ of_account lib p.account_id
    ∷ quoted lib " party_sid = '" p.party_sid
    ∷ quoted lib " groupName = '" p.group_name
    ∷ quoted lib " sender = '" p.sender
    ∷ quoted lib " receiver = '" p.receiver
    ∷ of_type lib p.message_type
    ∷ quoted lib " task = '" p.task
    ∷ printed_as lib " isPermanent = " p.is_permanent
    ∷ printed_as lib " enabled = " enabled
    ∷ []

abbrev pub present : {A : Type 0} → List (Option A) → List A
present [] = []
present (none ∷ os) = present os
present (some a ∷ os) = a ∷ present os

-- texts with a separator between them
abbrev pub join_rest : String → List String → String
join_rest separator [] = ""
join_rest separator (t ∷ ts) = separator +++ (t +++ join_rest separator ts)

abbrev pub join : String → List String → String
join separator [] = ""
join separator (t ∷ ts) = t +++ join_rest separator ts

module _ (lib : Library) where
  put_all : List (Option String) → String × Bool → String × Bool
  put_all [] acc = acc
  put_all (o ∷ os) acc = put_all os (put_condition lib o acc)

  put_all-started :
      (os : List (Option String)) (sql : String)
      → (put_all os (sql, true)).0 ≡ sql +++ join_rest " AND " (present os)
  unfolding put_all put_condition
  put_all-started [] sql = sym (text_append-nil sql)
  put_all-started (none ∷ os) sql = put_all-started os sql
  put_all-started (some t ∷ os) sql =
      put_all-started os (sql +++ " AND " +++ t)
      ∙ text_append_assoc (sql +++ " AND ") t (join_rest " AND " (present os))
      ∙ text_append_assoc sql " AND " (t +++ join_rest " AND " (present os))

  put_all-join :
      (os : List (Option String)) → (put_all os ("", false)).0 ≡ join " AND " (present os)
  unfolding put_all put_condition
  put_all-join [] = refl
  put_all-join (none ∷ os) = put_all-join os
  put_all-join (some t ∷ os) =
      put_all-started os ("" +++ t)
      ∙ ap (λ x. x +++ join_rest " AND " (present os)) (nil-text_append t)

  -- The where clause that is built with the flag `putAnd` is the list of the conditions that are present,
  -- in the order of the columns, with " AND " between them: none leads, trails or is doubled.
  pub get_tasks_sql_where2-join :
      (p : Params) (enabled : Option Json)
      → get_tasks_sql_where2 lib p enabled ≡ join " AND " (present (conditions lib p enabled))
  unfolding get_tasks_sql_where2 put_all
  get_tasks_sql_where2-join p enabled = put_all-join (conditions lib p enabled)
