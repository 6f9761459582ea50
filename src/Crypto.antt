-- ===== src/Crypto.antt =====
-- queue/crypto.go. The AES-GCM library and the source of random bytes are parameters.
pub mod RoundTrip
use orkai_runiq.Common.{
  ℕ, ◌+◌, ◌==◌, Text, codes, text_eq, Bool, true, false, ◌&&◌, Option, none, some, List, [], ◌∷◌,
  ◌++◌, ltb, if◌then◌else◌, length, take, drop,
}

pub data CryptoError : Type 0 where
  err_invalid_key err_payload_too_short err_no_header : CryptoError
  -- an error of the library
  library_error : CryptoError

pub data Outcome {ℓ} (A : Type ℓ) : Type ℓ where
  done : A → Outcome A
  refused : CryptoError → Outcome A

-- cipher.AEAD without additional data.
pub record Gcm : Type 0 where
  pub nonce_size : ℕ
  pub seal : Text → Text → Text
  pub unseal : Text → Text → Option Text

-- aes.NewCipher, which accepts or refuses a key, cipher.NewGCM on its cipher, and io.ReadFull of
-- rand.Reader.
pub record Library : Type 0 where
  pub new_cipher : Text → Bool
  pub new_gcm : Text → Option Gcm
  pub read_full : ℕ → Option Text

abbrev pub encryption_header : Text
encryption_header = codes "runiq:enc:"

unfoldable pub build_encrypted_bytes : Text → Text → Text
build_encrypted_bytes nonce ciphertext = encryption_header ++ nonce ++ ciphertext

-- The loop over the header: payload[i] is there, since the payload is long enough.
unfoldable pub has_prefix : Text → Text → Bool
has_prefix [] payload = true
has_prefix (b ∷ header) [] = false
has_prefix (b ∷ header) (p ∷ payload) = p == b && has_prefix header payload

unfoldable pub is_encrypted : Text → Bool
unfolding has_prefix
is_encrypted payload =
    if ltb (length payload) (length encryption_header)
    then false
    else has_prefix encryption_header payload

module _ (library : Library) where
  abbrev pub sealed_with : Gcm → Text → Option Text → Outcome Text
  sealed_with gcm plaintext none = refused library_error
  sealed_with gcm plaintext (some nonce) =
      done (build_encrypted_bytes nonce (gcm.seal nonce plaintext))

  abbrev pub encrypt_with : Option Gcm → Text → Outcome Text
  encrypt_with none plaintext = refused library_error
  encrypt_with (some gcm) plaintext = sealed_with gcm plaintext (library.read_full gcm.nonce_size)

  unfoldable pub encrypt_payload : Text → Text → Outcome Text
  unfolding build_encrypted_bytes
  encrypt_payload plaintext key =
      if library.new_cipher key
      then encrypt_with (library.new_gcm key) plaintext
      else refused err_invalid_key

abbrev pub opened : Option Text → Outcome Text
opened none = refused library_error
opened (some plaintext) = done plaintext

unfoldable pub decrypt_cipher : Text → Gcm → Outcome Text
decrypt_cipher payload gcm =
    let header_len = length encryption_header in
    if ltb (length payload) (header_len + gcm.nonce_size)
    then refused err_payload_too_short
    else opened (
        gcm.unseal (take gcm.nonce_size (drop header_len payload))
          (drop (header_len + gcm.nonce_size) payload))

module _ (library : Library) where
  abbrev pub decrypt_with : Text → Option Gcm → Outcome Text
  decrypt_with payload none = refused library_error
  decrypt_with payload (some gcm) = decrypt_cipher payload gcm

  unfoldable pub decrypt_payload : Text → Text → Outcome Text
  unfolding is_encrypted decrypt_cipher
  decrypt_payload payload key =
      if is_encrypted payload
      then (if library.new_cipher key
          then decrypt_with payload (library.new_gcm key)
          else refused err_invalid_key)
      else refused err_no_header
