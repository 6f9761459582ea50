-- ===== src/Helpers.antt =====
-- queue/helpers.go.
pub mod Backoff
pub mod Tags
use orkai_runiq.Common.{
  ℕ, ◌+◌, ◌*◌, ◌%◌, ◌^◌, ◌-◌, ℤ, pos, Text, text_eq, Bool, true, false, Option, none, some, List,
  [], ◌∷◌, ltb, ltb_ℤ, negsuc, if◌then◌else◌, non_positive,
}

-- `1 << uint(attempts)` on a 64-bit int, as its bit pattern.
abbrev pub shift_left : ℕ → ℕ
shift_left attempts = if ltb attempts 64 then 2 ^ attempts else 0

-- The int that a 64-bit pattern stands for.
abbrev pub signed : ℕ → ℤ
signed p = if ltb p (2 ^ 63) then pos p else negsuc (2 ^ 64 - 1 - p)

abbrev pub second : ℕ
second = 1000000000

-- delaySec before the jitter, as a pattern.
unfoldable pub delay_sec : ℕ → ℕ
delay_sec attempts =
    let scaled = shift_left attempts * 10 % 2 ^ 64 in
    if ltb_ℤ (pos 3600) (signed scaled) then 3600 else scaled

-- ComputeBackoffDelay, a duration in nanoseconds. `nanosecond` is what time.Now().Nanosecond()
-- returns.
unfoldable pub compute_backoff_delay : ℕ → ℕ → ℤ
unfolding delay_sec
compute_backoff_delay attempts nanosecond =
    let jitter_sec = nanosecond % 3 in signed ((delay_sec attempts + jitter_sec) * second % 2 ^ 64)

unfoldable pub get_run_at : ℕ → Option ℕ → ℕ
get_run_at now (some t) = t
get_run_at now none = now

unfoldable pub get_max_attempts : ℤ → ℤ
get_max_attempts max = if non_positive max then pos 3 else max

-- The inner loop of matchTags.
unfoldable pub tag_found : Text → List Text → Bool
tag_found jt [] = false
tag_found jt (wt ∷ wts) = if text_eq jt wt then true else tag_found jt wts

-- The outer loop.
unfoldable pub tags_found : List Text → List Text → Bool
unfolding tag_found
tags_found [] worker_tags = true
tags_found (jt ∷ jts) worker_tags =
    if tag_found jt worker_tags then tags_found jts worker_tags else false

unfoldable pub match_tags : List Text → List Text → Bool
unfolding tags_found
match_tags [] worker_tags = true
match_tags (jt ∷ jts) worker_tags = tags_found (jt ∷ jts) worker_tags
