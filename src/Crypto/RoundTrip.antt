-- ===== src/Crypto/RoundTrip.antt =====
-- Encryption followed by decryption: queue/crypto.go.
use orkai_runiq.Common.{
  ℕ, zero, suc, ◌+◌, ◌≡◌, ◌≢◌, refl, ap, Text, Bool, true, false, some, inl, inr, [], ◌∷◌, ◌++◌,
  ltb, if◌then◌else◌, length, take, drop, length-append, arith, Bool-cases, Option-cases,
}
use orkai_runiq.Crypto.{
  CryptoError, done, refused, Gcm, Library, encryption_header, build_encrypted_bytes, has_prefix,
  is_encrypted, encrypt_payload, opened, err_payload_too_short, decrypt_cipher, decrypt_payload,
}

drop-append : (xs ys : Text) (n : ℕ) → length xs ≡ n → drop n (xs ++ ys) ≡ ys
drop-append [] ys zero h = refl
drop-append [] ys (suc n) h = absurd (omega arith)
drop-append (x ∷ xs) ys zero h = absurd (omega arith)
drop-append (x ∷ xs) ys (suc n) h = drop-append xs ys n (omega arith)

take-append : (xs ys : Text) (n : ℕ) → length xs ≡ n → take n (xs ++ ys) ≡ xs
take-append [] ys zero h = refl
take-append [] ys (suc n) h = absurd (omega arith)
take-append (x ∷ xs) ys zero h = absurd (omega arith)
take-append (x ∷ xs) ys (suc n) h = ap (λ zs. x ∷ zs) (take-append xs ys n (omega arith))

has_prefix-append : (header rest : Text) → has_prefix header (header ++ rest) ≡ true
unfolding has_prefix
has_prefix-append [] rest = refl
has_prefix-append (b ∷ header) rest = ground (arith, has_prefix-append header rest)

is_encrypted-build :
    (nonce ciphertext : Text) → is_encrypted (build_encrypted_bytes nonce ciphertext) ≡ true
unfolding is_encrypted build_encrypted_bytes
is_encrypted-build nonce ciphertext =
    rw (not_shorter (length (nonce ++ ciphertext)))
      (has_prefix-append encryption_header (nonce ++ ciphertext))
  where
    not_shorter :
        (n : ℕ) → ltb (suc (suc (suc (suc (suc (suc (suc (suc (suc (suc n)))))))))) 10 ≡ false
    not_shorter n = ground arith

opened_parts :
    (gcm : Gcm) (nonce plaintext : Text) (short : Bool) (n c : Text)
    → short ≡ false
    → n ≡ nonce
    → c ≡ gcm.seal nonce plaintext
    → gcm.unseal nonce (gcm.seal nonce plaintext) ≡ some plaintext
    → (if short then refused err_payload_too_short else opened (gcm.unseal n c)) ≡ done plaintext
opened_parts gcm nonce plaintext short n c a b d opens = rw (a, b, d, opens) refl

long_enough :
    (nonce ciphertext : Text) (size : ℕ)
    → length nonce ≡ size
    → ltb (length (encryption_header ++ nonce ++ ciphertext)) (length encryption_header + size)
      ≡ false
long_enough nonce ciphertext size h = rw (length-append nonce ciphertext) (ground arith)

header_nonce :
    (nonce : Text) (size : ℕ)
    → length nonce ≡ size
    → length (encryption_header ++ nonce) ≡ length encryption_header + size
header_nonce nonce size h = omega arith

decrypt_cipher-build :
    (gcm : Gcm) (nonce plaintext : Text)
    → length nonce ≡ gcm.nonce_size
    → gcm.unseal nonce (gcm.seal nonce plaintext) ≡ some plaintext
    → decrypt_cipher (build_encrypted_bytes nonce (gcm.seal nonce plaintext)) gcm ≡ done plaintext
unfolding decrypt_cipher build_encrypted_bytes
decrypt_cipher-build gcm nonce plaintext sized opens =
    let ciphertext = gcm.seal nonce plaintext in
    opened_parts gcm nonce plaintext _ _ _ (long_enough nonce ciphertext gcm.nonce_size sized)
      (take-append nonce ciphertext gcm.nonce_size sized)
      (drop-append (encryption_header ++ nonce) ciphertext
        (length encryption_header + gcm.nonce_size) (header_nonce nonce gcm.nonce_size sized))
      opens

refused_ne : {e : CryptoError} {t : Text} → refused e ≢ done t
refused_ne q = ground arith

done_same : {t u : Text} → done t ≡ done u → t ≡ u
done_same q = ground arith

-- Where the library opens what it has sealed and hands out nonces of the size asked for, what is
-- encrypted under a key is decrypted to the same bytes under that key.
pub decrypt_payload-encrypt_payload :
    (library : Library) (plaintext key payload : Text)
    → ((gcm : Gcm) (nonce bytes : Text)
        → library.new_gcm key ≡ some gcm
        → gcm.unseal nonce (gcm.seal nonce bytes) ≡ some bytes)
    → ((size : ℕ) (nonce : Text) → library.read_full size ≡ some nonce → length nonce ≡ size)
    → encrypt_payload library plaintext key ≡ done payload
    → decrypt_payload library payload key ≡ done plaintext
unfolding encrypt_payload decrypt_payload
decrypt_payload-encrypt_payload library plaintext key payload opens sized h =
    elim (Bool-cases (library.new_cipher key)) [
      | inr bad ↦ absurd (refused_ne (rw bad at h))
      | inl good ↦ elim (Option-cases (library.new_gcm key)) [
        | inl no_gcm ↦ absurd (refused_ne (rw (good, no_gcm) at h))
        | inr (gcm, found) ↦ elim (Option-cases (library.read_full gcm.nonce_size)) [
          | inl no_bytes ↦ absurd (refused_ne (rw (good, found, no_bytes) at h))
          | inr (nonce, drawn) ↦
              rw
                (
                  ← done_same (rw (good, found, drawn) at h),
                  is_encrypted-build nonce (gcm.seal nonce plaintext),
                  good,
                  found,
                )
                (decrypt_cipher-build gcm nonce plaintext (sized gcm.nonce_size nonce drawn)
                  (opens gcm nonce plaintext found))
        ]
      ]
    ]
