-- ===== src/Billing/Events.antt =====
-- What Razorpay's events say of a subscription, beside the table and the dates of
-- `handle_webhook_event` of app/services/billing_service.py.
use resume_screening_service.Common.{
  ◌+◌, ◌*◌, String, ◌≡◌, ◌≢◌, refl, Option, none, some, arith, inl, inr, ◌==◌, string_eq, eq_of_==,
  Bool-cases,
}
use resume_screening_service.Common.Int.{ℤ, pos, negsuc, ◌≤ℤ◌, ◌*ℤ◌}
use resume_screening_service.Clock.{from_timestamp}
use resume_screening_service.Errors.{ok}
use resume_screening_service.Models.{Instant, Subscription}
use resume_screening_service.Billing.{WebhookEntity, status_of_event, period_end_after}

-- The events of a subscription, and the status that it has after each.
pub data Tracked (event_type status : String) : Type 0 where
  activated : event_type ≡ "subscription.activated" → status ≡ "active" → Tracked event_type status
  charged : event_type ≡ "subscription.charged" → status ≡ "active" → Tracked event_type status
  cancelled :
      event_type ≡ "subscription.cancelled" → status ≡ "cancelled" → Tracked event_type status
  halted : event_type ≡ "subscription.halted" → status ≡ "cancelled" → Tracked event_type status

-- seconds from the epoch, in microseconds
abbrev pub micros : ℤ → Instant
micros (pos n) = pos (n * 1000000)
micros (negsuc n) = negsuc (n * 1000000 + 999999)

-- 0001-01-01 00:00:00 and 9999-12-31 23:59:59, in seconds from the epoch
abbrev pub first_second : ℤ
first_second = negsuc 62135596799

abbrev pub last_second : ℤ
last_second = pos 253402300799

-- The end of the period after an event: a charge that tells one sets it; nothing else changes it.
pub data PeriodEnd (event_type : String) (entity : WebhookEntity) (before after : Option Instant)
    : Type 0 where
  told :
      (seconds : ℤ)
      → event_type ≡ "subscription.charged"
      → entity.current_end ≡ some seconds
      → first_second ≤ℤ seconds
      → seconds ≤ℤ last_second
      → after ≡ some (micros seconds)
      → PeriodEnd event_type entity before after
  untold :
      event_type ≡ "subscription.charged"
      → entity.current_end ≡ none
      → after ≡ before
      → PeriodEnd event_type entity before after
  not_charged :
      event_type ≢ "subscription.charged"
      → after ≡ before
      → PeriodEnd event_type entity before after

pub status_of_event-Tracked :
    (event_type status : String)
    → Tracked event_type status
    → status_of_event event_type ≡ some status
unfolding status_of_event
status_of_event-Tracked event_type status (Tracked.activated e s) = rw (e, s) refl
status_of_event-Tracked event_type status (Tracked.charged e s) = rw (e, s) refl
status_of_event-Tracked event_type status (Tracked.cancelled e s) = rw (e, s) refl
status_of_event-Tracked event_type status (Tracked.halted e s) = rw (e, s) refl

-- An event that says nothing of a subscription is not in the table.
pub status_of_event_untracked :
    (event_type : String)
    → ((status : String) → ¬ Tracked event_type status)
    → status_of_event event_type ≡ none
unfolding status_of_event
status_of_event_untracked event_type foreign =
    elim (Bool-cases (event_type == "subscription.activated")) [
      | inl e ↦ absurd (foreign "active" (Tracked.activated (eq_of_== ⦃e = string_eq⦄ _ _ e) refl))
      | inr n1 ↦ elim (Bool-cases (event_type == "subscription.charged")) [
        | inl e ↦ absurd (foreign "active" (Tracked.charged (eq_of_== ⦃e = string_eq⦄ _ _ e) refl))
        | inr n2 ↦ elim (Bool-cases (event_type == "subscription.cancelled")) [
          | inl e ↦
              absurd (foreign "cancelled" (Tracked.cancelled (eq_of_== ⦃e = string_eq⦄ _ _ e) refl))
          | inr n3 ↦ elim (Bool-cases (event_type == "subscription.halted")) [
            | inl e ↦
                absurd (foreign "cancelled" (Tracked.halted (eq_of_== ⦃e = string_eq⦄ _ _ e) refl))
            | inr n4 ↦ ground arith
          ]
        ]
      ]
    ]

from_timestamp-micros :
    (seconds : ℤ)
    → first_second ≤ℤ seconds
    → seconds ≤ℤ last_second
    → from_timestamp seconds ≡ ok (micros seconds)
unfolding from_timestamp ◌*ℤ◌
from_timestamp-micros (pos n) lo hi = ground arith
from_timestamp-micros (negsuc n) lo hi = ground arith

pub period_end_after-PeriodEnd :
    (event_type : String) (entity : WebhookEntity) (s : Subscription) (after : Option Instant)
    → PeriodEnd event_type entity s.current_period_end after
    → period_end_after event_type entity s ≡ ok after
unfolding period_end_after
period_end_after-PeriodEnd event_type entity s after (PeriodEnd.told seconds e current lo hi is) =
    let at_end = from_timestamp-micros seconds lo hi in rw (e, current, at_end, is) refl
period_end_after-PeriodEnd event_type entity s after (PeriodEnd.untold e current is) =
    rw (e, current, is) refl
period_end_after-PeriodEnd event_type entity s after (PeriodEnd.not_charged ne is) =
    elim (Bool-cases (event_type == "subscription.charged")) [
      | inl e ↦ absurd (ne (eq_of_== ⦃e = string_eq⦄ event_type "subscription.charged" e))
      | inr other ↦ rw (other, is) refl
    ]
