-- ===== src/Inventory/Alerts/Single.antt =====
-- At most one alert is open for an item in a store, and `evaluate_restock_alert` keeps that so.
use codepop.Base.{
  Bool, Bool-cases, List, [], arith, if◌then◌else◌, inl, inr, refl, some, suc, zero, ℕ, ◌&&◌, ◌==◌,
  ◌∷◌, ◌≡◌, ◌≤◌,
}
use codepop.Base.Int.{leb_ℤ, ltb_ℤ}
use codepop.Inventory.Alerts.{
  alert_severity, count_open, new_alert, next_alerts, resolve_open, set_severity, upsert_alert,
}
use codepop.Inventory.Models.{RestockAlert, Severity, StoreBalance}

-- `resolve_open` closes the alerts of the pair that it is given, and no other.
pub count_open-resolve_open :
    (now store item s i : ℕ) (alerts : List RestockAlert)
    → count_open s i (resolve_open now store item alerts)
      ≡ (if (store == s) && (item == i) then 0 else count_open s i alerts)
unfolding count_open resolve_open
count_open-resolve_open now store item s i [] = ground arith
count_open-resolve_open now store item s i (a ∷ alerts) =
    ground (arith, count_open-resolve_open now store item s i alerts)

pub count_open-set_severity :
    (store item : ℕ) (severity : Severity) (s i : ℕ) (alerts : List RestockAlert)
    → count_open s i (set_severity store item severity alerts) ≡ count_open s i alerts
unfolding count_open set_severity
count_open-set_severity store item severity s i [] = refl
count_open-set_severity store item severity s i (a ∷ alerts) =
    ground (arith, count_open-set_severity store item severity s i alerts)

-- The alerts that `upsert_alert` leaves, by the number that were open.
upsert_alert-count_open :
    (store item : ℕ) (severity : Severity) (n : ℕ) (alerts : List RestockAlert)
    → n ≡ count_open store item alerts
    → n ≤ 1
    → (alerts' : List RestockAlert) × (upsert_alert store item severity n alerts ≡ some alerts')
      × ((s i : ℕ)
          → count_open s i alerts'
            ≡ (if (store == s) && (item == i) then 1 else count_open s i alerts))
unfolding upsert_alert
upsert_alert-count_open store item severity zero alerts e h =
    (new_alert store item severity ∷ alerts, refl, λ s i. unfold count_open in ground arith)
upsert_alert-count_open store item severity (suc zero) alerts e h = (
  set_severity store item severity alerts,
  refl,
  λ s i. ground (arith, count_open-set_severity store item severity s i alerts),
)
upsert_alert-count_open store item severity (suc (suc n)) alerts e h = absurd (omega arith)

-- `on_hand <= reorder_threshold`
abbrev pub is_low : StoreBalance → Bool
is_low b = leb_ℤ b.quantities.on_hand_quantity b.reorder_threshold

-- Where at most one alert was open for the pair, the evaluation succeeds: then the pair has one
-- open alert if the stock is at or below its threshold and none if it is above, and every other
-- pair has as many as before.
pub next_alerts-count_open :
    (now store item : ℕ) (b : StoreBalance) (alerts : List RestockAlert)
    → count_open store item alerts ≤ 1
    → (alerts' : List RestockAlert) × (next_alerts now store item b alerts ≡ some alerts')
      × ((s i : ℕ)
          → count_open s i alerts' ≡ (
              if (store == s) && (item == i)
              then (if is_low b then 1 else 0)
              else count_open s i alerts))
unfolding next_alerts
next_alerts-count_open now store item b alerts h =
    elim (Bool-cases (ltb_ℤ b.reorder_threshold b.quantities.on_hand_quantity)) [
      | inl above ↦ (
        resolve_open now store item alerts,
        rw above,
        λ s i. ground (arith, count_open-resolve_open now store item s i alerts),
      )
      | inr low ↦
          let (alerts', done, counts) =
            upsert_alert-count_open store item (alert_severity b) (count_open store item alerts)
              alerts refl h in
          (alerts', rw low done, λ s i. ground (arith, counts s i))
    ]
