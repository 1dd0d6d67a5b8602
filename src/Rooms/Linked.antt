-- ===== src/Rooms/Linked.antt =====
-- The invariant of the heap and its preservation, part by part.
mod Invariant
mod Unlinking
mod Deleting
mod Joining
mod Leaving
pub use Invariant.{IsLinked}
pub use Unlinking.{unlink, unlink-IsLinked, Listed, unlink-Listed}
pub use Deleting.{SameTables, delete_member_by_name-IsLinked, delete_member_from_account-IsLinked}
pub use Joining.{
  Registered, find_account-Registered, find_account-IsLinked, find_group-IsLinked,
  add_member_to_account_group-IsLinked,
}
pub use Leaving.{
  handle_orphan_socket-IsLinked, broadcast_unit-IsLinked, broadcast-IsLinked,
  del_member_from_group-IsLinked, del_member_from_account_by_name-IsLinked,
}
