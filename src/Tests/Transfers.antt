-- ===== src/Tests/Transfers.antt =====
-- A transfer of cola between two stores of a region.
use codepop.Base.{All, Option, [], map, none, some, ℕ, ◌↔◌, ◌∷◌, ◌≡◌}
use codepop.Base.Exec.{ok}
use codepop.Base.Int.{pos, ℤ}
use codepop.Db.{Db}
use codepop.Orders.Models.{OrderStatus}
use codepop.Stores.{Store}
use codepop.Tests.Data.{cola, downtown, tables_in}
use codepop.Transfers.Lifecycle.{TransferAction, approve_lines, progress_transfer}
use codepop.Transfers.Lifecycle.Approval.{IsApprovable, approve_line, approve_lines_iff}
use codepop.Transfers.Lifecycle.Progress.{progress_transfer_outcome}
use codepop.Transfers.Lifecycle.Steps.{StepOutcome}
use codepop.Transfers.Models.{LineItem, SourceType, Transfer, TransferScope, TransferStatus}
use codepop.Users.Models.{Role, User}

abbrev uptown : Store
uptown = record downtown { id = 2; store_code = 8 }

abbrev cola_line : LineItem
cola_line = record {
  inventory_item = cola;
  quantity_requested = pos 500;
  quantity_approved = pos 0;
  quantity_received = pos 0;
}

abbrev cola_transfer : Transfer
cola_transfer = record {
  id = 9;
  source_type = SourceType.store;
  source_store = some downtown;
  source_hub = none;
  destination_store = uptown;
  requested_by = 3;
  approved_by = none;
  status = TransferStatus.requested;
  transfer_scope = TransferScope.same_region_store;
  distance_miles = pos 300;
  approved_at = none;
  delivered_at = none;
  received_at = none;
  line_items = cola_line ∷ [];
}

abbrev tables : Db
tables = record (tables_in OrderStatus.paid) {
  stores = (1, downtown) ∷ (2, uptown) ∷ [];
  transfers = (9, cola_transfer) ∷ [];
}

abbrev chief : User
chief = record { id = 1; role = Role.super_admin }

progress_transfer_outcome_example :
    StepOutcome 9 tables (progress_transfer 20 cola_transfer chief TransferAction.approve tables)
progress_transfer_outcome_example =
    progress_transfer_outcome 20 cola_transfer chief TransferAction.approve tables

-- The approver cuts every line down to four units.
abbrev cut_down : ℕ → Option ℤ
cut_down item = some (pos 400)

approve_lines_iff_example :
    (approve_lines cut_down (cola_line ∷ [])
      ≡ ok (record cola_line { quantity_approved = pos 400 } ∷ []))
    ↔ (All (IsApprovable cut_down) (cola_line ∷ [])
        × (record cola_line { quantity_approved = pos 400 } ∷ []
            ≡ map (approve_line cut_down) (cola_line ∷ [])))
approve_lines_iff_example =
    approve_lines_iff cut_down (cola_line ∷ [])
      (record cola_line { quantity_approved = pos 400 } ∷ [])
