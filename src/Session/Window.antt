-- ===== src/Session/Window.antt =====
-- `PostWriteWindow` of internal/server/session/session.go. Times are nanoseconds, and the zero time is
-- `none`. A duration that is not positive is 0.
use grunyas.Prelude.{
  ℕ, ◌+◌, ◌-◌, ◌*◌, ◌/◌, ◌≤◌, ◌≡◌, Bool, false, ◌&&◌, Option, none, some, ltb, if◌then◌else◌, arith,
}

pub record PostWriteWindow : Type 0 where
  pub opened_at : Option ℕ
  pub duration_ms : ℕ

unfoldable pub is_active : PostWriteWindow → ℕ → Bool
is_active w now = elim w.opened_at [
  | none ↦ false
  | some at ↦ ltb 0 w.duration_ms && ltb (now - at) (w.duration_ms * 1_000_000)
]

unfoldable pub remaining_ms : PostWriteWindow → ℕ → ℕ
unfolding is_active
remaining_ms w now = elim w.opened_at [
  | none ↦ 0
  | some at ↦ if is_active w now then w.duration_ms - (now - at) / 1_000_000 else 0
]

-- A window that was opened at `at` is active until its duration has passed and not after; what
-- remains is positive as long as it is active, never more than the duration, and the time that is
-- left, rounded up to whole milliseconds: it covers that time, and less than one more millisecond.
pub window_until_duration :
    (at now duration : ℕ)
    → at ≤ now
    → let w : PostWriteWindow = record { opened_at = some at; duration_ms = duration } in
      (is_active w now ≡ ltb now (at + duration * 1_000_000))
      × (ltb 0 (remaining_ms w now) ≡ is_active w now)
      × (remaining_ms w now ≤ duration)
      × (remaining_ms w now * 1_000_000 ≤ (at + duration * 1_000_000 - now) + 999_999)
      × (at + duration * 1_000_000 - now ≤ remaining_ms w now * 1_000_000)
unfolding is_active remaining_ms
window_until_duration at now duration h =
    (ground (arith, h), ground (arith, h), ground (arith, h), ground (arith, h), ground (arith, h))
