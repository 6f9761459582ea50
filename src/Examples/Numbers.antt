-- ===== src/Examples/Numbers.antt =====
-- Values of the helpers.
use orkai_runiq.Common.{pos, ◌+◌, ◌*◌, ◌^◌, ◌%◌, ◌≡◌, ◌↔◌, true, codes, [], ◌∷◌, arith}
use orkai_runiq.Helpers.{second, compute_backoff_delay, match_tags}
use orkai_runiq.Helpers.Backoff.{
  compute_backoff_delay_exact, compute_backoff_delay_overflow, capped_at_hour,
}
use orkai_runiq.Helpers.Tags.{match_tags-Covers, Covers}

compute_backoff_delay_exact_example :
    compute_backoff_delay 3 5 ≡ pos ((capped_at_hour (10 * 2 ^ 3) + 5 % 3) * second)
compute_backoff_delay_exact_example = compute_backoff_delay_exact 3 5 (omega arith)

compute_backoff_delay_overflow_example : compute_backoff_delay 64 5 ≡ pos (5 % 3 * second)
compute_backoff_delay_overflow_example = compute_backoff_delay_overflow 64 5 (omega arith)

match_tags-Covers_example :
    (match_tags (codes "gpu" ∷ []) (codes "cpu" ∷ codes "gpu" ∷ []) ≡ true)
    ↔ Covers (codes "gpu" ∷ []) (codes "cpu" ∷ codes "gpu" ∷ [])
match_tags-Covers_example = match_tags-Covers (codes "gpu" ∷ []) (codes "cpu" ∷ codes "gpu" ∷ [])
