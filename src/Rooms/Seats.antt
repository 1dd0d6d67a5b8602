-- ===== src/Rooms/Seats.antt =====
-- A specification of js_andruav_chat_account_rooms.js: who sits where. A place is an account, a group and a
-- unit, and holds at most one socket; the heap of accounts, groups and tables is forgotten.
use droneengage_server.Base.{
  ℕ, Bool, true, false, ◌&&◌, Option, none, some, String, get, if◌then◌else◌, str_eq, is_some,
}
use droneengage_server.Rooms.{Rooms}

abbrev pub Seats : Type 0
Seats = String → String → String → Option ℕ

abbrev pub is_place : String → String → String → String → String → String → Bool
is_place a g u b h v = str_eq a b && str_eq g h && str_eq u v

-- to take a place that is free; who comes late is refused
abbrev pub sit : String → String → String → ℕ → Seats → Seats × Bool
sit a g u ws seats =
    if is_some (seats a g u)
    then (seats, false)
    else (λ b h v. if is_place a g u b h v then some ws else seats b h v, true)

-- to leave a place
abbrev pub rise : String → String → String → Seats → Seats
rise a g u seats b h v = if is_place a g u b h v then none else seats b h v

-- What the tables of the code say of a place.
unfoldable pub seats_of : {M : Type 0} → Rooms M → Seats
seats_of r a g u = elim (get a r.c_accounts) [
  | none ↦ none
  | some account ↦ elim (get g (r.accounts account).groups) [
    | none ↦ none
    | some group ↦ get u (r.groups group).units
  ]
]
