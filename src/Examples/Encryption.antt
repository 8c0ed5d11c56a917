-- ===== src/Examples/Encryption.antt =====
-- Two messages under a toy cipher: internal/chat/encrypt.go.
use t_chat.Base.{
  ◌≡◌, refl, ap, ◌∙◌, true, some, [], ◌∷◌, ◌++◌, Bytes, bytes_comparable, bytes_eq, length, drop,
  drop-append_left, lookup, store,
}
use t_chat.Chat.Encryption.{
  Crypto, EncryptionManager, EncryptedMessage, new_encryption_manager, generate_session_key,
  encrypt_message, decrypt_message, get_or_create_session_key, encrypt_with_aes, is_expired,
  update_stats,
}
use t_chat.Chat.Encryption.Secrets.{
  CryptoLaws, decrypt_message-encrypt_message, encrypt_message-nonce,
}

abbrev crypto : Crypto
crypto = record {
  new_cipher = λ key. true;
  seal = λ key nonce text. key ++ (nonce ++ text);
  unseal = λ key nonce sealed. some (drop (length nonce) (drop (length key) sealed));
  base64 = λ bytes. bytes;
  unbase64 = λ bytes. some bytes;
  shared = λ private public. private ++ public;
  sign = λ private bytes. some private;
}

opens : (key nonce text : Bytes) → crypto.unseal key nonce (crypto.seal key nonce text) ≡ some text
opens key nonce text =
    ap {A = Bytes} (λ s. some (drop (length nonce) s)) (drop-append_left key (nonce ++ text))
    ∙ ap some (drop-append_left nonce text)

laws : CryptoLaws crypto
laws = record {
  unseal-seal = λ key nonce text usable. opens key nonce text;
  unbase64-base64 = λ b. refl;
}

abbrev ann : EncryptionManager
ann =
    (generate_session_key crypto 5 (some (9 ∷ [])) (2 ∷ []) (3 ∷ [])
      (new_encryption_manager (4 ∷ []) 100)).1

abbrev eve : EncryptionManager
eve = new_encryption_manager (7 ∷ []) 100

abbrev message : Bytes → EncryptedMessage
message text = record {
  content = (4 ∷ 3 ∷ 9 ∷ []) ++ text;
  key = 4 ∷ 3 ∷ [];
  nonce = 9 ∷ [];
  signature = 4 ∷ [];
  timestamp = 6;
  peer_id = 2 ∷ [];
}

-- Another manager reads it.
decrypt_message-encrypt_message_example :
    (decrypt_message crypto 8 (message (1 ∷ [])) eve).1 ≡ some (1 ∷ [])
unfolding encrypt_message get_or_create_session_key lookup generate_session_key store
    new_encryption_manager bytes_eq is_expired encrypt_with_aes
decrypt_message-encrypt_message_example =
    decrypt_message-encrypt_message crypto 6 8 (2 ∷ []) (1 ∷ []) ann eve laws refl

encrypt_message-nonce_example :
    ((message (1 ∷ [])).key ≡ (message (5 ∷ [])).key)
    × ((message (1 ∷ [])).nonce ≡ (message (5 ∷ [])).nonce)
unfolding encrypt_message get_or_create_session_key lookup generate_session_key store
    new_encryption_manager bytes_eq is_expired encrypt_with_aes update_stats
encrypt_message-nonce_example =
    encrypt_message-nonce crypto 6 6 (2 ∷ []) (1 ∷ []) (5 ∷ []) ann {first = message (1 ∷ [])}
      {second = message (5 ∷ [])} refl refl
