-- ===== src/Authz/Check/Age.antt =====
-- The age limit of a vetting: exact while the minutes fit into an int64 of nanoseconds.
use intercore.Common.{
  ℕ, ◌+◌, ◌-◌, ◌*◌, ◌≤◌, ◌<◌, ◌≡◌, ◌≢◌, refl, ◌↔◌, Option, none, some, arith, if◌then◌else◌,
}
use intercore.Common.Int.{
  ℤ, pos, negsuc, ◌+ℤ◌, ◌-ℤ◌, ◌≤ℤ◌, clamp64, wrap64, two_63, two_64, wrap64_pos, clamp64_iff,
  -ℤ_parts, +ℤ_pos, leb_ℤ,
}
use intercore.Authz.Check.{
  CheckInput, Reason, minute, max_age, age, within_minutes, tolerance, default_clock_skew_tolerance,
  is_zero_time, missing_vetted_at, vetting_too_old,
}

pub max_age_exact :
    (mins tol : ℕ)
    → mins * minute + tol < two_63
    → max_age mins (pos tol) ≡ pos (mins * minute + tol)
unfolding max_age
max_age_exact mins tol h =
    rw (wrap64_pos (mins * minute) (omega arith), +ℤ_pos (mins * minute) tol) (wrap64_pos _ h)

abbrev outcome : ℤ → ℤ → ℤ → Option Reason
outcome vetted a limit =
    if is_zero_time vetted
    then some missing_vetted_at
    else if leb_ℤ a limit
    then none
    else some (vetting_too_old a limit)

outcome_iff :
    (vetted a : ℤ) (limit : ℕ)
    → vetted ≢ pos 0
    → (outcome vetted a (pos limit) ≡ none) ↔ (a ≤ℤ pos limit)
outcome_iff (pos v) a limit h = ground arith
outcome_iff (negsuc v) a limit h = ground arith

-- A vetting whose time is known is accepted exactly when it is at most `mins` minutes and the
-- tolerance old, as long as that span is less than 2^63 - 1 nanoseconds (some 292 years).
pub within_minutes_iff :
    (mins tol : ℕ) (input : CheckInput)
    → tolerance input ≡ pos tol
    → input.vetted_at ≢ pos 0
    → mins * minute + tol < two_63 - 1
    → (within_minutes (some (pos mins)) input ≡ none)
      ↔ (input.now -ℤ input.vetted_at ≤ℤ pos (mins * minute + tol))
unfolding within_minutes age
within_minutes_iff mins tol input t v h =
    let span = mins * minute + tol in
    let judged = outcome_iff input.vetted_at (clamp64 (input.now -ℤ input.vetted_at)) span v in
    let cut = clamp64_iff (input.now -ℤ input.vetted_at) span h in
    rw (t, max_age_exact mins tol (omega arith))
      (λ e. cut.0 (judged.0 e), λ le. judged.1 (cut.1 le))

wrap64_high : (p : ℕ) → two_63 ≤ p → p < two_64 → wrap64 (pos p) ≡ negsuc (two_64 - 1 - p)
unfolding wrap64
wrap64_high p lo hi = ground arith

wrap64_small_negative : (k : ℕ) → k < two_63 → wrap64 (negsuc k) ≡ negsuc k
unfolding wrap64
wrap64_small_negative k h = ground arith

negative_sum : (k t : ℕ) → t ≤ k → negsuc k +ℤ pos t ≡ negsuc (k - t)
unfolding ◌+ℤ◌
negative_sum k t h = ground arith

max_age_wraps :
    (mins tol : ℕ)
    → two_63 ≤ mins * minute
    → mins * minute + tol < two_64
    → max_age mins (pos tol) ≡ negsuc (two_64 - 1 - mins * minute - tol)
unfolding max_age
max_age_wraps mins tol lo hi =
    rw
      (
        wrap64_high (mins * minute) lo (omega arith),
        negative_sum (two_64 - 1 - mins * minute) tol (omega arith),
      )
      (wrap64_small_negative _ (omega arith))

outcome_negative : (vetted a : ℤ) (k : ℕ) → pos 0 ≤ℤ a → outcome vetted a (negsuc k) ≢ none
outcome_negative (pos v) a k h = ground arith
outcome_negative (negsuc v) a k h = ground arith

age_nonneg : (input : CheckInput) → input.vetted_at ≤ℤ input.now → pos 0 ≤ℤ age input
unfolding age clamp64
age_nonneg input h = ground (arith, -ℤ_parts input.now input.vetted_at)

default_tolerance :
    (input : CheckInput)
    → input.clock_skew_tolerance ≡ pos 0
    → tolerance input ≡ default_clock_skew_tolerance
unfolding tolerance
default_tolerance input h = rw h refl

-- With the default tolerance, a limit of 153722868 to 307445729 minutes wraps to a negative int64
-- span, and every vetting that is not in the future is refused.
pub within_minutes_wraps :
    (mins : ℕ) (input : CheckInput)
    → two_63 ≤ mins * minute
    → mins * minute + 300000000000 < two_64
    → input.clock_skew_tolerance ≡ pos 0
    → input.vetted_at ≤ℤ input.now
    → within_minutes (some (pos mins)) input ≢ none
unfolding within_minutes
within_minutes_wraps mins input lo hi zero_tol past =
    rw (default_tolerance input zero_tol, max_age_wraps mins 300000000000 lo hi)
      (outcome_negative input.vetted_at (age input) _ (age_nonneg input past))
