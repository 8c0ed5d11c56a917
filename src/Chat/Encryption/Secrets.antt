-- ===== src/Chat/Encryption/Secrets.antt =====
-- What an encrypted message gives away: internal/chat/encrypt.go.
use t_chat.Base.{
  ℕ, ◌≡◌, refl, sym, ap, ◌∙◌, true, none, some, Bytes, bytes_comparable, lookup, Bool-cases,
  Option-cases, inl, inr,
}
use t_chat.Chat.Encryption.{
  Crypto, SessionKey, EncryptedMessage, EncryptionManager, get_or_create_session_key,
  encrypt_with_aes, encrypt_message, decrypt_with_aes, decrypt_message, verify_signature,
  update_stats, encrypted_with, is_expired,
}

-- What the documentation of AES-GCM and of Base64 says.
pub record CryptoLaws (crypto : Crypto) : Type 0 where
  pub unseal-seal :
      (key nonce text : Bytes)
      → crypto.new_cipher key ≡ true
      → crypto.unseal key nonce (crypto.seal key nonce text) ≡ some text
  pub unbase64-base64 : (bytes : Bytes) → crypto.unbase64 (crypto.base64 bytes) ≡ some bytes

-- How a message comes about.
record IsEncrypted (crypto : Crypto) (now : ℕ) (peer text : Bytes) (em em' : EncryptionManager)
    (message : EncryptedMessage) : Type 0 where
  session : SessionKey
  found : lookup peer em.session_keys ≡ some session
  usable : crypto.new_cipher session.key ≡ true
  content : message.content ≡ crypto.base64 (crypto.seal session.key session.nonce text)
  key : message.key ≡ crypto.base64 session.key
  nonce : message.nonce ≡ crypto.base64 session.nonce
  keys : em'.session_keys ≡ em.session_keys

encrypt_message-IsEncrypted :
    (crypto : Crypto) (now : ℕ) (peer text : Bytes) (em : EncryptionManager)
    {message : EncryptedMessage}
    → (encrypt_message crypto now peer text em).1 ≡ some message
    → IsEncrypted crypto now peer text em (encrypt_message crypto now peer text em).0 message
unfolding encrypt_message get_or_create_session_key encrypt_with_aes update_stats
encrypt_message-IsEncrypted crypto now peer text em {message} e =
    elim (Option-cases (lookup peer em.session_keys)) [
      | inl missing ↦ absurd (
          let f : none ≡ some message =
            rw (missing, encrypt_message, get_or_create_session_key) at e in
          cc)
      | inr (sk, found) ↦ elim (Bool-cases (is_expired now sk)) [
        | inl old ↦ absurd (
            let f : none ≡ some message =
              rw (found, old, encrypt_message, get_or_create_session_key) at e in
            cc)
        | inr fresh ↦ elim (Bool-cases (crypto.new_cipher sk.key)) [
          | inr refused ↦ absurd (
              let f : none ≡ some message =
                rw
                  (
                    found, fresh, refused, encrypt_message, get_or_create_session_key,
                    encrypt_with_aes,
                  )
                  at e in
              cc)
          | inl usable ↦
              elim (Option-cases (crypto.sign em.private_key (crypto.seal sk.key sk.nonce text))) [
                | inl unsigned ↦ absurd (
                    let f : none ≡ some message =
                      rw
                        (
                          found, fresh, usable, unsigned, encrypt_message,
                          get_or_create_session_key, encrypt_with_aes,
                        )
                        at e in
                    cc)
                | inr (signature, signed) ↦
                    let f : some (
                          encrypted_with crypto now peer sk (crypto.seal sk.key sk.nonce text)
                            signature)
                        ≡ some message =
                      rw
                        (
                          found, fresh, usable, signed, encrypt_message, get_or_create_session_key,
                          encrypt_with_aes,
                        )
                        at e in
                    let same : encrypted_with crypto now peer sk (crypto.seal sk.key sk.nonce text)
                          signature
                        ≡ message =
                      cc in
                    record {
                      session = sk;
                      found = found;
                      usable = usable;
                      content = ap (λ m. m.content) (sym same);
                      key = ap (λ m. m.key) (sym same);
                      nonce = ap (λ m. m.nonce) (sym same);
                      keys =
                          rw
                            (
                              found, fresh, usable, signed, encrypt_message,
                              get_or_create_session_key, encrypt_with_aes,
                            )
                            refl;
                    }
              ]
        ]
      ]
    ]

-- By the documentation of the libraries, a message that EncryptMessage returns is decrypted to its
-- text by DecryptMessage of every manager, at any time, whatever keys that manager has.
pub decrypt_message-encrypt_message :
    (crypto : Crypto) (now later : ℕ) (peer text : Bytes) (em other : EncryptionManager)
    {message : EncryptedMessage}
    → CryptoLaws crypto
    → (encrypt_message crypto now peer text em).1 ≡ some message
    → (decrypt_message crypto later message other).1 ≡ some text
unfolding decrypt_message decrypt_with_aes verify_signature
decrypt_message-encrypt_message crypto now later peer text em other {message} laws e =
    let m = encrypt_message-IsEncrypted crypto now peer text em e in
    rw
      (
        m.content,
        m.key,
        m.nonce,
        laws.unbase64-base64 (crypto.seal m.session.key m.session.nonce text),
        laws.unbase64-base64 m.session.key,
        laws.unbase64-base64 m.session.nonce,
        decrypt_message,
        decrypt_with_aes,
        m.usable,
        laws.unseal-seal m.session.key m.session.nonce text m.usable,
      )
      refl

-- Two messages that EncryptMessage returns for one peer, one after the other, have the same key and
-- the same nonce.
pub encrypt_message-nonce :
    (crypto : Crypto) (now later : ℕ) (peer text next : Bytes) (em : EncryptionManager)
    {first second : EncryptedMessage}
    → (encrypt_message crypto now peer text em).1 ≡ some first
    → (encrypt_message crypto later peer next (encrypt_message crypto now peer text em).0).1
      ≡ some second
    → (first.key ≡ second.key) × (first.nonce ≡ second.nonce)
encrypt_message-nonce crypto now later peer text next em {first} {second} e f =
    let a = encrypt_message-IsEncrypted crypto now peer text em e in
    let b =
      encrypt_message-IsEncrypted crypto later peer next (encrypt_message crypto now peer text em).0
        f in
    let both : some a.session ≡ some b.session = sym a.found ∙ (rw a.keys at b.found) in
    let same : a.session ≡ b.session = cc in
    (
      a.key ∙ ap (λ s. crypto.base64 s.key) same ∙ sym b.key,
      a.nonce ∙ ap (λ s. crypto.base64 s.nonce) same ∙ sym b.nonce,
    )
