-- ===== src/Errors.antt =====
-- core/exceptions.py and the exception classes of the services. A constructor is a class with one
-- of its messages.

-- `InventoryServiceError`
pub data InventoryFault : Type 0 where
  invalid_quantities catalog_incomplete outdated_recipe insufficient_stock : InventoryFault
  one_source_needed region_mismatch too_far not_positive no_internal_source : InventoryFault
  request_denied source_store_missing source_hub_missing source_kind_unknown : InventoryFault
  source_short approval_denied not_requested approval_not_positive : InventoryFault
  approval_exceeds_request not_approved reservation_not_positive oversubscribed : InventoryFault
  not_reserved not_in_transit not_delivered receipt_not_positive : InventoryFault
  receipt_exceeds_approval progress_denied receive_denied action_unknown : InventoryFault
  schedule_denied supplier_denied supplier_region not_ordered reservation_locked : InventoryFault

-- The subclasses of `OrderServiceError`
pub data OrderFault : Type 0 where
  store_mismatch code_exhausted no_items name_missing quantity_not_positive : OrderFault
  transition_denied refund_denied : OrderFault

-- `PaymentServiceError`, and `PaymentGatewayError` below it
pub data PaymentFault : Type 0 where
  intent_not_allowed transaction_missing intent_missing refund_failed checkout_unpaid : PaymentFault
  inventory_failed : InventoryFault → PaymentFault
  request_missing : PaymentFault

-- `MaintenanceServiceError`, and `RepairAssignmentStateError` below it
pub data MaintenanceFault : Type 0 where
  not_your_assignment assignee_not_repair_staff assignee_out_of_scope : MaintenanceFault
  transition_denied note_missing claim_denied claim_out_of_scope : MaintenanceFault
  assign_denied assign_out_of_scope : MaintenanceFault

pub data Error : Type 0 where
  inventory : InventoryFault → Error
  order : OrderFault → Error
  payment : PaymentFault → Error
  maintenance : MaintenanceFault → Error
  -- Django's `DoesNotExist`, `MultipleObjectsReturned`, a database that is locked, and `IntegrityError`
  -- for a value that is not unique.
  does_not_exist multiple_objects operational integrity : Error
