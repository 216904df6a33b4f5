-- ===== src/Maintenance/Models.antt =====
-- apps/maintenance/models.py: machines, their status events, repair assignments and policies. Dates
-- are days, times are seconds; scores are hundredths. Names and notes are left out.
use codepop.Base.{Bool, Option, false, true, ℕ}
use codepop.Stores.{Store}
use codepop.Users.Models.{User}

pub data MachineStatus : Type 0 where
  normal repair_start repair_end schedule_service warning error out_of_order : MachineStatus

pub record MachineType : Type 0 where
  pub id : ℕ
  pub default_service_interval_days : ℕ
  pub warning_max_operational_days : ℕ
  pub error_max_days : ℕ

pub record Machine : Type 0 where
  pub id : ℕ
  pub store : Store
  pub machine_type : MachineType
  pub current_status : MachineStatus
  pub current_status_date : Option ℕ
  pub last_service_date : Option ℕ
  pub next_service_due_date : Option ℕ

pub record MachineStatusEvent : Type 0 where
  pub machine : ℕ
  pub status : MachineStatus
  pub status_date : ℕ

pub data RepairStatus : Type 0 where
  scheduled acknowledged in_progress blocked completed closed canceled : RepairStatus

-- `route_batch_key` is the region's code and the slug of the city.
pub record RepairAssignment : Type 0 where
  pub id : ℕ
  pub assigned_to : ℕ
  pub machine : ℕ
  pub store : Store
  pub priority_score : ℕ
  pub status : RepairStatus
  pub scheduled_for : ℕ
  pub acknowledged_at : Option ℕ
  pub started_at : Option ℕ
  pub blocked_at : Option ℕ
  pub completed_at : Option ℕ
  pub closed_at : Option ℕ
  pub created_by_system : Bool
  pub route_batch_key : ℕ × ℕ
  pub follow_up_required : Bool
  pub created_at : ℕ

-- `RepairAssignment.actionable_statuses()`
abbrev pub is_actionable_repair : RepairStatus → Bool
is_actionable_repair RepairStatus.scheduled = true
is_actionable_repair RepairStatus.acknowledged = true
is_actionable_repair RepairStatus.in_progress = true
is_actionable_repair RepairStatus.blocked = true
is_actionable_repair _ = false

pub record MaintenancePolicy : Type 0 where
  pub machine_type : ℕ
  pub region : Option ℕ
  pub max_days_between_service : ℕ
  pub warning_shutdown_days : ℕ
  pub schedule_service_window_days : ℕ
  pub is_active : Bool

-- A user as the choice of an assignee sees it. `name` is the place in the order by last name, first
-- name and email.
pub record StaffMember : Type 0 where
  pub user : User
  pub is_active : Bool
  pub name : ℕ

-- A note: the empty text, blanks only, or more; `strip()` leaves something of the last alone.
pub data Note : Type 0 where
  empty blanks text : Note

abbrev pub is_clean : Note → Bool
is_clean Note.text = true
is_clean _ = false

-- `note or "…"`
abbrev pub or_text : Note → Note
or_text Note.empty = Note.text
or_text note = note
