-- ===== src/Account.antt =====
-- Accounts: account.go, crypto.go and manager.go of internal/account. SHA-256 and the hexadecimal
-- notation are a record of functions, and the generated key pair and the time are arguments. Names
-- and passwords are their bytes.
pub mod Xor
pub mod Sealed
pub mod Managers
pub mod Login
use t_chat.Base.{
  ℕ, zero, suc, ◌+◌, ◌*◌, ◌/◌, ◌%◌, Bool, true, false, not, ◌&&◌, Option, none, some, List, [], ◌∷◌,
  Bytes, bytes_comparable, ◌==◌, ltb, if◌then◌else◌, length, get_elem?,
}
use t_chat.Account.Xor.{is_empty, xor_from}

pub record Encodings : Type 0 where
  pub sha256 : Bytes → Bytes
  pub hex : Bytes → Bytes
  pub unhex : Bytes → Option Bytes

unfoldable pub encrypt_bytes : Encodings → Bytes → Bytes → Option Bytes
encrypt_bytes enc bytes password =
    if is_empty bytes
    then none
    else if is_empty password
    then none
    else some (xor_from (enc.sha256 password) 0 bytes)

unfoldable pub decrypt_bytes : Encodings → Bytes → Bytes → Option Bytes
decrypt_bytes enc encrypted password =
    if is_empty encrypted
    then none
    else if is_empty password
    then none
    else elim (enc.unhex encrypted) [
      | none ↦ none
      | some sealed ↦ some (xor_from (enc.sha256 password) 0 sealed)
    ]

unfoldable pub hash_password : Encodings → Bytes → Bytes
hash_password enc password = enc.hex (enc.sha256 password)

-- `public_key` is not saved.
pub record Account : Type 0 where
  pub username : Bytes
  pub password_hash : Bytes
  pub public_key : Bytes
  pub public_key_enc : Bytes
  pub private_key_enc : Bytes
  pub created_at : ℕ

-- What ed25519.GenerateKey returns: the public and the private key.
pub record KeyPair : Type 0 where
  pub public : Bytes
  pub private : Bytes

unfoldable pub generate_and_encrypt_keys :
    Encodings → Option KeyPair → Bytes → Account → Option Account
generate_and_encrypt_keys enc none password a = none
generate_and_encrypt_keys enc (some pair) password a =
    elim (encrypt_bytes enc pair.public password) [
      | none ↦ none
      | some public ↦ elim (encrypt_bytes enc pair.private password) [
        | none ↦ none
        | some private ↦
            some (record a { public_key_enc = enc.hex public; private_key_enc = enc.hex private })
      ]
    ]

unfoldable pub new_account : Encodings → ℕ → Option KeyPair → Bytes → Bytes → Option Account
unfolding generate_and_encrypt_keys
new_account enc now pair username password =
    if is_empty username
    then none
    else if is_empty password
    then none
    else if ltb (length password) 6
    then none
    else generate_and_encrypt_keys enc pair password (record {
      username = username;
      password_hash = hash_password enc password;
      public_key = [];
      public_key_enc = [];
      private_key_enc = [];
      created_at = now;
    })

unfoldable pub check_password : Encodings → Bytes → Account → Bool
check_password enc password a = a.password_hash == hash_password enc password

-- DecryptAccountKeys of the manager.
unfoldable pub decrypt_account_keys : Encodings → Bytes → Account → Option KeyPair
decrypt_account_keys enc password a = elim (decrypt_bytes enc a.public_key_enc password) [
  | none ↦ none
  | some public ↦ elim (decrypt_bytes enc a.private_key_enc password) [
    | none ↦ none
    | some private ↦ some (record { public = public; private = private })
  ]
]

-- DecryptKeys of the account.
unfoldable pub decrypt_keys : Encodings → Bytes → Account → Option KeyPair
decrypt_keys enc password a =
    if check_password enc password a then decrypt_account_keys enc password a else none

unfoldable pub get_public_key_hex : Encodings → Bytes → Account → Option Bytes
get_public_key_hex enc password a = elim (decrypt_keys enc password a) [
  | none ↦ none
  | some pair ↦ some (enc.hex pair.public)
]

-- The zero time is 0.
unfoldable pub is_valid_account : Account → Bool
is_valid_account a =
    not (is_empty a.username)
    && not (is_empty a.password_hash)
    && not (is_empty a.public_key_enc)
    && not (is_empty a.private_key_enc)
    && ltb 0 a.created_at
