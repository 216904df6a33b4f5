-- ===== src/Transfers/Lifecycle/Progress.antt =====
-- `progress_transfer`, whatever the action.
use codepop.Base.{Bool-cases, inl, inr, none, refl, some, ℕ}
use codepop.Db.{Db}
use codepop.Errors.{Error, InventoryFault}
use codepop.Transfers.Lifecycle.{TransferAction, may_progress, may_receive, progress_transfer}
use codepop.Transfers.Lifecycle.Steps.{
  StepOutcome, approve_transfer-Step, deliver_transfer-Step, receive_transfer-Step,
  reserve_transfer_inventory-Step, ship_transfer-Step,
}
use codepop.Transfers.Models.{Transfer}
use codepop.Users.Models.{User}

-- An action on a transfer either takes the transfer that is stored one step on, in the order
-- requested, approved, reserved, in transit, delivered, received, and stores it again; or it raises
-- with the tables as they were.
pub progress_transfer_outcome :
    (now : ℕ) (transfer : Transfer) (actor : User) (action : TransferAction) (db : Db)
    → StepOutcome transfer.id db (progress_transfer now transfer actor action db)
unfolding progress_transfer
progress_transfer_outcome now transfer actor TransferAction.approve db =
    approve_transfer-Step now transfer.id actor (λ item. none) db
progress_transfer_outcome now transfer actor TransferAction.reserve db =
    elim (Bool-cases (may_progress db.grants actor transfer)) [
      | inr p ↦ inr (Error.inventory InventoryFault.progress_denied, rw p)
      | inl p ↦ rw p (reserve_transfer_inventory-Step transfer.id db)
    ]
progress_transfer_outcome now transfer actor TransferAction.ship db =
    elim (Bool-cases (may_progress db.grants actor transfer)) [
      | inr p ↦ inr (Error.inventory InventoryFault.progress_denied, rw p)
      | inl p ↦ rw p (ship_transfer-Step transfer.id db)
    ]
progress_transfer_outcome now transfer actor TransferAction.deliver db =
    elim (Bool-cases (may_progress db.grants actor transfer)) [
      | inr p ↦ inr (Error.inventory InventoryFault.progress_denied, rw p)
      | inl p ↦ rw p (deliver_transfer-Step now transfer.id db)
    ]
progress_transfer_outcome now transfer actor TransferAction.receive db =
    elim (Bool-cases (may_receive db.grants actor transfer)) [
      | inr p ↦ inr (Error.inventory InventoryFault.receive_denied, rw p)
      | inl p ↦ rw p (receive_transfer-Step now transfer.id (some actor.id) db)
    ]
progress_transfer_outcome now transfer actor TransferAction.unsupported db =
    inr (Error.inventory InventoryFault.action_unknown, refl)
