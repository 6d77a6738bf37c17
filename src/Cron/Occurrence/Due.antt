-- ===== src/Cron/Occurrence/Due.antt =====
-- packages/core/src/backup/cron-evaluator.ts, checkScheduleDue: the slot that is due, and the next run.
use mathlib.Core.Path.{subst}
use zima_control.Common.{
  ℕ, zero, suc, ◌+◌, ◌/◌, ◌-◌, ◌≤◌, ◌<◌, ◌≡◌, ◌≢◌, ◌⊎◌, sym, ap, ◌∙◌, inl, inr, true, false,
  Bool-cases, Option, arith,
}
use zima_control.Common.Action.{Outcome, returned, thrown}
use zima_control.Cron.Words.{Text, NumberOf}
use zima_control.Cron.Occurrence.{
  ParsedCronSchedule, CronError, horizon_minutes, ScheduleDue, is_later, schedule_due,
  check_schedule_due, parse_cron_schedule, get_previous_cron_occurrence, get_next_cron_occurrence,
}
use zima_control.Cron.Occurrence.Reference.{is_occurrence, first_from, last_until}
use zima_control.Cron.Occurrence.Search.{first_from-next, first_from-here, next_occurrence_lem}
use zima_control.Cron.Occurrence.Backward.{
  last_until-next, last_until-here, previous_occurrence_lem,
}

abbrev returned_minute : ℕ → Outcome CronError ℕ
returned_minute = returned

same_minute : (t r : ℕ) → returned_minute t ≡ returned_minute r → t ≡ r
same_minute t r h = cc h

module _ (parsed : ParsedCronSchedule) where
  differs : (t u : ℕ) → is_occurrence parsed t ≡ false → is_occurrence parsed u ≡ true → u ≢ t
  differs t u e o same = cc (ap (is_occurrence parsed) same)

  -- The least occurrence from `t` on, and the greatest up to `t`.
  abbrev pub Least : ℕ → ℕ → Type 0
  Least t r =
      (t ≤ r)
      × (is_occurrence parsed r ≡ true)
      × ((u : ℕ) → t ≤ u → is_occurrence parsed u ≡ true → r ≤ u)

  abbrev pub Greatest : ℕ → ℕ → Type 0
  Greatest t r =
      (r ≤ t)
      × (is_occurrence parsed r ≡ true)
      × ((u : ℕ) → u ≤ t → is_occurrence parsed u ≡ true → u ≤ r)

  first_from-Least : (n t r : ℕ) → first_from parsed n t ≡ returned r → Least t r
  unfolding first_from
  first_from-Least zero t r h = absurd (cc h)
  first_from-Least (suc n) t r h = elim (Bool-cases (is_occurrence parsed t)) [
    | inl e ↦
        subst (Least t) (same_minute t r (sym (first_from-here parsed n t e) ∙ h))
          (omega arith, e, λ u lo o. lo)
    | inr e ↦
        let (lo, occ, least) =
          first_from-Least n (suc t) r (sym (first_from-next parsed n t e) ∙ h) in
        (omega (arith, lo), occ, λ u hu o. least u (omega (arith, hu, differs t u e o)) o)
  ]

  last_until-Greatest : (n t r : ℕ) → n ≤ suc t → last_until parsed n t ≡ returned r → Greatest t r
  unfolding last_until
  last_until-Greatest zero t r enough h = absurd (cc h)
  last_until-Greatest (suc n) t r enough h = elim (Bool-cases (is_occurrence parsed t)) [
    | inl e ↦
        subst (Greatest t) (same_minute t r (sym (last_until-here parsed n t e) ∙ h))
          (omega arith, e, λ u hi o. hi)
    | inr e ↦
        let (hi, occ, greatest) =
          last_until-Greatest n (t - 1) r (omega (arith, enough))
            (sym (last_until-next parsed n t e) ∙ h) in
        (omega (arith, hi), occ, λ u hu o. greatest u (omega (arith, hu, differs t u e o)) o)
  ]

before_or_after : (m u : ℕ) → (u ≤ m) ⊎ (m + 1 ≤ u)
before_or_after m u = omega arith

schedule_due-returned :
    (last : Option ℕ) (slot next_run : Outcome CronError ℕ) (due : ScheduleDue)
    → schedule_due last slot next_run ≡ returned due
    → (slot ≡ returned due.due_slot)
      × (next_run ≡ returned due.next_run)
      × (due.is_due ≡ is_later due.due_slot last)
schedule_due-returned last (returned slot) (returned next_run) due h = (cc h, cc h, cc h)
schedule_due-returned last (returned slot) (thrown e) due h = absurd (cc h)
schedule_due-returned last (thrown e) next_run due h = absurd (cc h)

-- What checkScheduleDue returns at a time at least five years and a minute after the start of 1970: the
-- due slot is an occurrence of the schedule and not after the time's minute, the next run is one after
-- that minute, every occurrence is at most the due slot or at least the next run, and the schedule is due
-- exactly if the slot is later than its last run, or it has none.
pub check_schedule_due_lem :
    (other : NumberOf) (expression : Text) (last : Option ℕ) (now_ms : ℕ)
    (parsed : ParsedCronSchedule) (due : ScheduleDue)
    → suc horizon_minutes ≤ now_ms / 60000
    → parse_cron_schedule other expression ≡ returned parsed
    → check_schedule_due other expression last now_ms ≡ returned due
    → (u : ℕ) → is_occurrence parsed u ≡ true
    → (is_occurrence parsed due.due_slot ≡ true)
      × (is_occurrence parsed due.next_run ≡ true)
      × (due.due_slot ≤ now_ms / 60000)
      × (now_ms / 60000 < due.next_run)
      × ((u ≤ due.due_slot) ⊎ (due.next_run ≤ u))
      × (due.is_due ≡ is_later due.due_slot last)
unfolding check_schedule_due get_previous_cron_occurrence get_next_cron_occurrence
check_schedule_due_lem other expression last now_ms parsed due late read h u o =
    let (slot, next, is_due) =
      schedule_due-returned last (get_previous_cron_occurrence other expression now_ms true)
        (get_next_cron_occurrence other expression now_ms) due h in
    let (hi, occ, greatest) =
      last_until-Greatest parsed (suc horizon_minutes) (now_ms / 60000) due.due_slot
        (omega (arith, late))
        (sym (previous_occurrence_lem parsed now_ms true late) ∙ (rw read at slot)) in
    let (lo, occurs, least) =
      first_from-Least parsed (suc horizon_minutes) (now_ms / 60000 + 1) due.next_run
        (sym (next_occurrence_lem parsed now_ms) ∙ (rw read at next)) in
    (
      occ,
      occurs,
      hi,
      omega (arith, lo),
      elim (before_or_after (now_ms / 60000) u) [
        | inl e ↦ inl (greatest u e o)
        | inr e ↦ inr (least u e o)
      ],
      is_due,
    )
