-- ===== src/Chat/Encryption.antt =====
-- The keys and messages of internal/chat/encryption_types.go, encryption_utils.go and encrypt.go. The
-- ciphers, encodings and random bytes of the libraries are a record of functions; the time of a call
-- is an argument. The own key pair is a private key, and the text forms of keys are left out.
pub mod Secrets
pub mod Manager
use t_chat.Base.{
  ℕ, suc, ◌+◌, Bool, true, false, not, ◌&&◌, Option, none, some, List, [], ◌∷◌, Bytes,
  bytes_comparable, ltb, if◌then◌else◌, GoMap, lookup, store, remove, keep_values, length,
}

-- `seal key nonce text` is AES-GCM with a key of the right size, and `open` its inverse, which fails
-- on other texts; `new_cipher` tells whether the size of a key is right. `shared private public` is
-- the SHA-256 of the product on the curve.
pub record Crypto : Type 0 where
  pub new_cipher : Bytes → Bool
  pub seal : Bytes → Bytes → Bytes → Bytes
  pub unseal : Bytes → Bytes → Bytes → Option Bytes
  pub base64 : Bytes → Bytes
  pub unbase64 : Bytes → Option Bytes
  pub shared : Bytes → Bytes → Bytes
  pub sign : Bytes → Bytes → Option Bytes

pub record SessionKey : Type 0 where
  pub key : Bytes
  pub nonce : Bytes
  pub created_at : ℕ
  pub expires_at : ℕ
  pub peer_id : Bytes

pub record EncryptionStats : Type 0 where
  pub total_messages : ℕ
  pub encrypted_messages : ℕ
  pub decrypted_messages : ℕ
  pub active_sessions : ℕ
  pub last_activity : ℕ

pub record EncryptedMessage : Type 0 where
  pub content : Bytes
  pub key : Bytes
  pub nonce : Bytes
  pub signature : Bytes
  pub timestamp : ℕ
  pub peer_id : Bytes

pub record EncryptionManager : Type 0 where
  pub private_key : Bytes
  pub session_keys : GoMap Bytes SessionKey
  pub session_expiry : ℕ
  pub stats : EncryptionStats

abbrev pub no_stats : EncryptionStats
no_stats = record {
  total_messages = 0;
  encrypted_messages = 0;
  decrypted_messages = 0;
  active_sessions = 0;
  last_activity = 0;
}

unfoldable pub new_encryption_manager : Bytes → ℕ → EncryptionManager
new_encryption_manager private_key session_expiry = record {
  private_key = private_key;
  session_keys = [];
  session_expiry = session_expiry;
  stats = no_stats;
}

unfoldable pub is_expired : ℕ → SessionKey → Bool
is_expired now sk = ltb sk.expires_at now

unfoldable pub is_valid : ℕ → SessionKey → Bool
unfolding is_expired
is_valid now sk = not (is_expired now sk) && ltb 0 (length sk.key) && ltb 0 (length sk.nonce)

-- `none` if the cipher refuses the key.
unfoldable pub encrypt_with_aes : Crypto → Bytes → Bytes → Bytes → Option Bytes
encrypt_with_aes crypto text key nonce =
    if crypto.new_cipher key then some (crypto.seal key nonce text) else none

unfoldable pub decrypt_with_aes : Crypto → Bytes → Bytes → Bytes → Option Bytes
decrypt_with_aes crypto sealed key nonce =
    if crypto.new_cipher key then crypto.unseal key nonce sealed else none

-- EncryptMessage with the random key and nonce: the text in Base64.
unfoldable pub encrypt_once : Crypto → Bytes → Bytes → Bytes → Option Bytes
encrypt_once crypto key nonce text =
    if crypto.new_cipher key then some (crypto.base64 (crypto.seal key nonce text)) else none

unfoldable pub decrypt_once : Crypto → Bytes → Bytes → Bytes → Option Bytes
decrypt_once crypto encoded key nonce = elim (crypto.unbase64 encoded) [
  | none ↦ none
  | some sealed ↦ if crypto.new_cipher key then crypto.unseal key nonce sealed else none
]

-- `nonce` are the random bytes, if there are any.
unfoldable pub generate_session_key :
    Crypto → ℕ → Option Bytes → Bytes → Bytes → EncryptionManager → Bool × EncryptionManager
generate_session_key crypto now none peer public em = (false, em)
generate_session_key crypto now (some nonce) peer public em = (
  true,
  record em {
    session_keys =
        store peer
          (record {
            key = crypto.shared em.private_key public;
            nonce = nonce;
            created_at = now;
            expires_at = now + em.session_expiry;
            peer_id = peer;
          })
          em.session_keys;
  },
)

-- ImportPublicKey: `parsed` is the key that the libraries read from the PEM text.
unfoldable pub import_public_key :
    Crypto → ℕ → Option Bytes → Option Bytes → Bytes → EncryptionManager → Bool × EncryptionManager
import_public_key crypto now random none peer em = (false, em)
import_public_key crypto now random (some public) peer em =
    generate_session_key crypto now random peer public em

unfoldable pub get_or_create_session_key : ℕ → Bytes → EncryptionManager → Option SessionKey
get_or_create_session_key now peer em = elim (lookup peer em.session_keys) [
  | none ↦ none
  | some sk ↦ if is_expired now sk then none else some sk
]

unfoldable pub get_session_key :
    ℕ → Bytes → EncryptionManager → EncryptionManager × Option SessionKey
get_session_key now peer em = elim (lookup peer em.session_keys) [
  | none ↦ (em, none)
  | some sk ↦
      if is_expired now sk
      then (record em { session_keys = remove peer em.session_keys }, none)
      else (em, some sk)
]

unfoldable pub update_stats : ℕ → Bool → Bool → EncryptionManager → EncryptionManager
update_stats now encrypted decrypted em = record em {
  stats = record em.stats {
    total_messages = suc em.stats.total_messages;
    encrypted_messages =
        if encrypted then suc em.stats.encrypted_messages else em.stats.encrypted_messages;
    decrypted_messages =
        if decrypted then suc em.stats.decrypted_messages else em.stats.decrypted_messages;
    last_activity = now;
  };
}

abbrev pub encrypted_with : Crypto → ℕ → Bytes → SessionKey → Bytes → Bytes → EncryptedMessage
encrypted_with crypto now peer sk sealed signature = record {
  content = crypto.base64 sealed;
  key = crypto.base64 sk.key;
  nonce = crypto.base64 sk.nonce;
  signature = crypto.base64 signature;
  timestamp = now;
  peer_id = peer;
}

unfoldable pub encrypt_message :
    Crypto → ℕ → Bytes → Bytes → EncryptionManager → EncryptionManager × Option EncryptedMessage
encrypt_message crypto now peer text em = elim (get_or_create_session_key now peer em) [
  | none ↦ (em, none)
  | some sk ↦ elim (encrypt_with_aes crypto text sk.key sk.nonce) [
    | none ↦ (em, none)
    | some sealed ↦ elim (crypto.sign em.private_key sealed) [
      | none ↦ (em, none)
      | some signature ↦ (
        update_stats now true false em,
        some (encrypted_with crypto now peer sk sealed signature),
      )
    ]
  ]
]

-- It checks nothing.
unfoldable pub verify_signature : EncryptedMessage → Bool
verify_signature message = true

abbrev pub three : Option Bytes → Option Bytes → Option Bytes → Option (Bytes × Bytes × Bytes)
three (some a) (some b) (some c) = some (a, b, c)
three (some a) (some b) none = none
three (some a) none c = none
three none _ _ = none

unfoldable pub decrypt_message :
    Crypto → ℕ → EncryptedMessage → EncryptionManager → EncryptionManager × Option Bytes
decrypt_message crypto now message em =
    if verify_signature message
    then elim (three (crypto.unbase64 message.content) (crypto.unbase64 message.key)
        (crypto.unbase64 message.nonce)) [
          | none ↦ (em, none)
          | some (sealed, key, nonce) ↦ elim (decrypt_with_aes crypto sealed key nonce) [
            | none ↦ (em, none)
            | some text ↦ (update_stats now false true em, some text)
          ]
        ]
    else (em, none)

unfoldable pub cleanup_expired_sessions : ℕ → EncryptionManager → EncryptionManager
cleanup_expired_sessions now em = record em {
  session_keys = keep_values (λ sk. not (is_expired now sk)) em.session_keys;
}

-- The copy that GetStats returns, behind the cleanup.
unfoldable pub get_encryption_stats : ℕ → EncryptionManager → EncryptionManager × EncryptionStats
get_encryption_stats now em =
    let em' = cleanup_expired_sessions now em in
    (em', record em'.stats { active_sessions = length em'.session_keys; last_activity = now })
