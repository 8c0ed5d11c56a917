-- ===== src/Account/Sealed.antt =====
-- Private keys under a password: internal/account/encrypt.go. The key derivation and the cipher are a
-- record of functions, and the random bytes are arguments.
use t_chat.Base.{
  ℕ, ◌+◌, ◌≡◌, sym, ap, ◌∙◌, false, Option, none, some, ◌++◌, Bytes, ltb, if◌then◌else◌, length,
  take, drop, arith, length-append, take-append_left, drop-append_left, drop-drop,
}

pub record Cipher : Type 0 where
  pub derive : Bytes → Bytes → Bytes
  pub seal : Bytes → Bytes → Bytes → Bytes
  pub unseal : Bytes → Bytes → Bytes → Option Bytes

abbrev pub salt_size : ℕ
salt_size = 16

abbrev pub nonce_size : ℕ
nonce_size = 12

-- The salt, the nonce and the text, one behind the other.
unfoldable pub encrypt_private_key : Cipher → Bytes → Bytes → Bytes → Bytes → Bytes
encrypt_private_key cipher salt nonce pem password =
    salt ++ (nonce ++ cipher.seal (cipher.derive password salt) nonce pem)

unfoldable pub decrypt_private_key : Cipher → Bytes → Bytes → Option Bytes
decrypt_private_key cipher sealed password =
    if ltb (length sealed) salt_size
    then none
    else if ltb (length sealed) (salt_size + nonce_size)
    then none
    else cipher.unseal (cipher.derive password (take salt_size sealed))
        (take nonce_size (drop salt_size sealed)) (drop (salt_size + nonce_size) sealed)

-- By the documentation of AES-GCM, DecryptPrivateKey with the right password gives back what
-- EncryptPrivateKey has sealed, whatever salt of 16 bytes and nonce of 12 bytes it drew.
pub decrypt_private_key-encrypt_private_key :
    (cipher : Cipher) (salt nonce pem password : Bytes)
    → ((key n text : Bytes) → cipher.unseal key n (cipher.seal key n text) ≡ some text)
    → length salt ≡ salt_size
    → length nonce ≡ nonce_size
    → decrypt_private_key cipher (encrypt_private_key cipher salt nonce pem password) password
      ≡ some pem
unfolding decrypt_private_key encrypt_private_key
decrypt_private_key-encrypt_private_key cipher salt nonce pem password opens s n =
    rw (long, longer, salted, behind, nonced, rest) (opens (cipher.derive password salt) nonce pem)
  where
    text : Bytes
    text = cipher.seal (cipher.derive password salt) nonce pem

    whole : Bytes
    whole = salt ++ (nonce ++ text)

    long : ltb (length whole) 16 ≡ false
    long = ground (arith, length-append salt (nonce ++ text))

    longer : ltb (length whole) 28 ≡ false
    longer = ground (arith, length-append salt (nonce ++ text), length-append nonce text)

    salted : take 16 whole ≡ salt
    salted = ap (λ (k : ℕ). take k whole) (sym s) ∙ take-append_left salt (nonce ++ text)

    behind : drop 16 whole ≡ nonce ++ text
    behind = ap (λ (k : ℕ). drop k whole) (sym s) ∙ drop-append_left salt (nonce ++ text)

    nonced : take 12 (nonce ++ text) ≡ nonce
    nonced = ap (λ (k : ℕ). take k (nonce ++ text)) (sym n) ∙ take-append_left nonce text

    rest : drop 28 whole ≡ text
    rest =
        sym (drop-drop 16 12 whole)
        ∙ ap (drop 12) behind
        ∙ ap (λ (k : ℕ). drop k (nonce ++ text)) (sym n)
        ∙ drop-append_left nonce text
