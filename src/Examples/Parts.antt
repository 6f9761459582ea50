-- ===== src/Examples/Parts.antt =====
-- Runs of the circuit breaker, the encryption, the cron expressions and the autoscaler.
use orkai_runiq.Common.{
  ℕ, zero, suc, ap, subst, sym, ◌∙◌, ℤ, pos, ◌≡◌, refl, ◌||◌, Text, codes, true, Option, some, none,
  List, [], ◌∷◌, ◌++◌, length, leb_ℤ, arith, false,
}
use orkai_runiq.CircuitBreaker.{CircuitBreakerConfig, new_circuit_breaker, is_open, after_call}
use orkai_runiq.CircuitBreaker.Invariant.{created, returned, IsCounting, Reachable-IsCounting}
use orkai_runiq.CircuitBreaker.Trips.{fail_all, fail_all-opens}
use orkai_runiq.Crypto.{
  done, Gcm, Library, encryption_header, encrypt_payload, decrypt_payload, build_encrypted_bytes,
}
use orkai_runiq.Crypto.RoundTrip.{decrypt_payload-encrypt_payload}
use orkai_runiq.Cron.{match_part}
use orkai_runiq.Cron.Lists.{match_part-comma}
use orkai_runiq.Queue.{QueueStats}
use orkai_runiq.Autoscaler.{DynamicConcurrencyConfig, setup_semaphore, start_autoscaler}
use orkai_runiq.Autoscaler.Sizes.{IsSized, start_autoscaler-IsSized}

abbrev pub three_failures : CircuitBreakerConfig
three_failures = record { cooldown = pos 10; latency_threshold = pos 0; failure_threshold = pos 3 }

Reachable-IsCounting_example :
    IsCounting three_failures (after_call true (pos 1) 5 (new_circuit_breaker three_failures 0))
Reachable-IsCounting_example =
    Reachable-IsCounting three_failures
      (after_call true (pos 1) 5 (new_circuit_breaker three_failures 0))
      (returned true (pos 1) 5 (new_circuit_breaker three_failures 0) (created 0))

fail_all-opens_example :
    is_open
      (fail_all
        ((pos 1, 1) ∷ (pos 1, 2) ∷ (pos 1, 3) ∷ [])
        (new_circuit_breaker three_failures 0)).state
    ≡ leb_ℤ (pos 3) (pos 3)
fail_all-opens_example = fail_all-opens three_failures 0 (pos 1, 1) ((pos 1, 2) ∷ (pos 1, 3) ∷ [])

-- The nonce and the bytes themselves stand for the ciphertext.
abbrev toy_gcm : Gcm
toy_gcm = record { nonce_size = 2; seal = λ nonce bytes. bytes; unseal = λ nonce bytes. some bytes }

abbrev zeros : ℕ → Text
zeros zero = []
zeros (suc n) = 0 ∷ zeros n

length-zeros : (n : ℕ) → length (zeros n) ≡ n
length-zeros zero = refl
length-zeros (suc n) = ap suc (length-zeros n)

abbrev pub toy : Library
toy = record {
  new_cipher = λ key. true;
  new_gcm = λ key. some toy_gcm;
  read_full = λ size. some (zeros size);
}

toy_opens :
    (gcm : Gcm) (nonce bytes : Text)
    → toy.new_gcm (codes "key") ≡ some gcm
    → gcm.unseal nonce (gcm.seal nonce bytes) ≡ some bytes
toy_opens gcm nonce bytes h =
    subst (λ (g : Gcm). g.unseal nonce (g.seal nonce bytes) ≡ some bytes) (some_same h) refl
  where
    some_same : some toy_gcm ≡ some gcm → toy_gcm ≡ gcm
    some_same q = ground arith

toy_sized : (size : ℕ) (nonce : Text) → toy.read_full size ≡ some nonce → length nonce ≡ size
toy_sized size nonce h = ap length (sym (some_same h)) ∙ length-zeros size
  where
    some_same : some (zeros size) ≡ some nonce → zeros size ≡ nonce
    some_same q = ground arith

abbrev secret : Text
secret = encryption_header ++ 0 ∷ 0 ∷ codes "hello"

encrypts : encrypt_payload toy (codes "hello") (codes "key") ≡ done secret
unfolding encrypt_payload build_encrypted_bytes
encrypts = refl

decrypt_payload-encrypt_payload_example :
    decrypt_payload toy secret (codes "key") ≡ done (codes "hello")
decrypt_payload-encrypt_payload_example =
    decrypt_payload-encrypt_payload toy (codes "hello") (codes "key") secret toy_opens toy_sized
      encrypts

match_part-comma_example :
    match_part (codes "5,*/15") 30 0 ≡ match_part (codes "5") 30 0 || match_part (codes "*/15") 30 0
match_part-comma_example = match_part-comma (codes "5") (codes "*/15") 30 0

abbrev two_to_five : DynamicConcurrencyConfig
two_to_five = record {
  check_interval = pos 0;
  min_concurrency = pos 2;
  max_concurrency = pos 5;
  queue_depth_limit = pos 10;
  scale_up_step = pos 2;
  scale_down_step = pos 0;
}

abbrev load : ℤ → Option (List QueueStats)
load n = some (
    (record {
      name = codes "mail";
      pending = n;
      running = pos 0;
      failed = pos 0;
      processed = pos 0;
      paused = false;
    })
    ∷ [])

start_autoscaler-IsSized_example : IsSized two_to_five (
    start_autoscaler
      (load (pos 20) ∷ none ∷ load (pos 20) ∷ load (pos 0) ∷ [])
      (setup_semaphore two_to_five (codes "mail" ∷ [])))
start_autoscaler-IsSized_example =
    start_autoscaler-IsSized two_to_five (omega arith) (codes "mail" ∷ [])
      (load (pos 20) ∷ none ∷ load (pos 20) ∷ load (pos 0) ∷ [])
