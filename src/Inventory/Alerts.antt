-- ===== src/Inventory/Alerts.antt =====
-- apps/inventory/services.py, `evaluate_restock_alert`.
pub mod Single
use codepop.Base.{
  Bool, List, Option, [], false, if◌then◌else◌, none, some, suc, true, zero, ℕ, ◌&&◌, ◌==◌, ◌∷◌,
}
use codepop.Base.Exec.{err, ok}
use codepop.Base.Int.{leb_ℤ, ltb_ℤ, ◌+ℤ◌}
use codepop.Db.{Call}
use codepop.Errors.{Error}
use codepop.Inventory.Models.{AlertStatus, RestockAlert, Severity, StoreBalance}

abbrev pub is_open : AlertStatus → Bool
is_open AlertStatus.opened = true
is_open _ = false

-- `filter(store=…, inventory_item=…, status=OPEN)`
abbrev pub is_open_for : ℕ → ℕ → RestockAlert → Bool
is_open_for store item a = is_open a.status && ((a.store == store) && (a.item == item))

unfoldable pub count_open : ℕ → ℕ → List RestockAlert → ℕ
count_open store item [] = 0
count_open store item (a ∷ alerts) =
    let rest = count_open store item alerts in if is_open_for store item a then suc rest else rest

-- `.update(status=RESOLVED, resolved_at=now)`
unfoldable pub resolve_open : ℕ → ℕ → ℕ → List RestockAlert → List RestockAlert
resolve_open now store item [] = []
resolve_open now store item (a ∷ alerts) =
    (if is_open_for store item a
      then record a { status = AlertStatus.resolved; resolved_at = some now }
      else a)
    ∷ resolve_open now store item alerts

unfoldable pub set_severity : ℕ → ℕ → Severity → List RestockAlert → List RestockAlert
set_severity store item severity [] = []
set_severity store item severity (a ∷ alerts) =
    (if is_open_for store item a then record a { severity = severity } else a)
    ∷ set_severity store item severity alerts

abbrev pub new_alert : ℕ → ℕ → Severity → RestockAlert
new_alert store item severity = record {
  store = store;
  item = item;
  severity = severity;
  status = AlertStatus.opened;
  resolved_at = none;
}

-- `update_or_create(store=…, inventory_item=…, status=OPEN, defaults={severity, …})`, which raises
-- where several rows fit; by the number of open alerts.
unfoldable pub upsert_alert : ℕ → ℕ → Severity → ℕ → List RestockAlert → Option (List RestockAlert)
upsert_alert store item severity zero alerts = some (new_alert store item severity ∷ alerts)
upsert_alert store item severity (suc zero) alerts = some (set_severity store item severity alerts)
upsert_alert store item severity (suc (suc n)) alerts = none

-- `on_hand <= threshold / 2`
unfoldable pub alert_severity : StoreBalance → Severity
alert_severity b =
    if leb_ℤ (b.quantities.on_hand_quantity +ℤ b.quantities.on_hand_quantity) b.reorder_threshold
    then Severity.critical
    else Severity.warning

unfoldable pub next_alerts :
    ℕ → ℕ → ℕ → StoreBalance → List RestockAlert → Option (List RestockAlert)
next_alerts now store item b alerts =
    if ltb_ℤ b.reorder_threshold b.quantities.on_hand_quantity
    then some (resolve_open now store item alerts)
    else upsert_alert store item (alert_severity b) (count_open store item alerts) alerts

unfoldable pub evaluate_restock_alert : ℕ → ℕ → ℕ → StoreBalance → Call (Unit {0})
evaluate_restock_alert now store item b db = elim (next_alerts now store item b db.alerts) [
  | none ↦ (err Error.multiple_objects, db)
  | some alerts ↦ (ok tt, record db { alerts = alerts })
]
