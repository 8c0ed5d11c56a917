-- ===== src/Account/Login.antt =====
-- Logging in, and reading the keys without: internal/account/manager.go and crypto.go.
use t_chat.Base.{
  ℕ, ◌≡◌, ◌≢◌, refl, sym, ap, ◌∙◌, Bool, true, false, Option, none, some, [], Bytes,
  bytes_comparable, ltb, length, lookup, store, lookup-store, eq_self, eq→≡, Bool-cases,
  Option-cases, inl, inr,
}
use t_chat.Account.{
  Encodings, KeyPair, Account, encrypt_bytes, decrypt_bytes, hash_password, new_account,
  generate_and_encrypt_keys, check_password, decrypt_account_keys,
}
use t_chat.Account.Xor.{is_empty, AreBytes, xor_from, xor_from_twice, xor_from-filled}
use t_chat.Account.Managers.{
  AccountManager, account_exists, cannot_create, cannot_save, wrong_password, as_saved,
  save_account, create_account, set_current_account_with_password, get_current_account_of,
}

-- What the documentation of encoding/hex says, as far as it is used.
pub record EncodingLaws (enc : Encodings) : Type 0 where
  pub unhex-hex : (bytes : Bytes) → enc.unhex (enc.hex bytes) ≡ some bytes
  pub hex-filled : (bytes : Bytes) → is_empty bytes ≡ false → is_empty (enc.hex bytes) ≡ false

pub record IsKeyPair (pair : KeyPair) : Type 0 where
  pub public_bytes : AreBytes pair.public
  pub private_bytes : AreBytes pair.private

-- How a new account comes about.
pub record IsNew (enc : Encodings) (pair : KeyPair) (username password : Bytes) (a : Account)
    : Type 0 where
  pub name : a.username ≡ username
  pub hash : a.password_hash ≡ enc.hex (enc.sha256 password)
  pub public : a.public_key_enc ≡ enc.hex (xor_from (enc.sha256 password) 0 pair.public)
  pub private : a.private_key_enc ≡ enc.hex (xor_from (enc.sha256 password) 0 pair.private)
  pub given : is_empty password ≡ false
  pub public_given : is_empty pair.public ≡ false
  pub private_given : is_empty pair.private ≡ false

-- What NewAccount makes.
abbrev new_record : Encodings → ℕ → KeyPair → Bytes → Bytes → Account
new_record enc now pair username password = record {
  username = username;
  password_hash = enc.hex (enc.sha256 password);
  public_key = [];
  public_key_enc = enc.hex (xor_from (enc.sha256 password) 0 pair.public);
  private_key_enc = enc.hex (xor_from (enc.sha256 password) 0 pair.private);
  created_at = now;
}

-- The private key by the fields of a file alone.
unfoldable pub read_with : Encodings → Account → Option Bytes
read_with enc a = elim (enc.unhex a.password_hash) [
  | none ↦ none
  | some key ↦ elim (enc.unhex a.private_key_enc) [
    | none ↦ none
    | some sealed ↦ some (xor_from key 0 sealed)
  ]
]

pub new_account-IsNew :
    (enc : Encodings) (now : ℕ) (pair : KeyPair) (username password : Bytes) {a : Account}
    → new_account enc now (some pair) username password ≡ some a
    → IsNew enc pair username password a
unfolding new_account generate_and_encrypt_keys encrypt_bytes hash_password
new_account-IsNew enc now pair username password {a} e = elim (Bool-cases (is_empty username)) [
  | inl unnamed ↦ absurd (let f : none ≡ some a = rw (unnamed, new_account) at e in cc)
  | inr named ↦ elim (Bool-cases (is_empty password)) [
    | inl bare ↦ absurd (let f : none ≡ some a = rw (named, bare, new_account) at e in cc)
    | inr given ↦ elim (Bool-cases (ltb (length password) 6)) [
      | inl short ↦
          absurd (let f : none ≡ some a = rw (named, given, short, new_account) at e in cc)
      | inr long ↦ elim (Bool-cases (is_empty pair.public)) [
        | inl lacks ↦ absurd (
            let f : none ≡ some a =
              rw (named, given, long, lacks, new_account, generate_and_encrypt_keys, encrypt_bytes)
                at e in
            cc)
        | inr public ↦ elim (Bool-cases (is_empty pair.private)) [
          | inl lacks ↦ absurd (
              let f : none ≡ some a =
                rw
                  (
                    named, given, long, public, lacks, new_account, generate_and_encrypt_keys,
                    encrypt_bytes,
                  )
                  at e in
              cc)
          | inr private ↦
              let f : some (new_record enc now pair username password) ≡ some a =
                rw
                  (
                    named, given, long, public, new_account, generate_and_encrypt_keys,
                    encrypt_bytes, given, private, encrypt_bytes,
                  )
                  at e in
              let same : new_record enc now pair username password ≡ a = cc in
              record {
                name = ap (λ x. x.username) (sym same);
                hash = ap (λ x. x.password_hash) (sym same);
                public = ap (λ x. x.public_key_enc) (sym same);
                private = ap (λ x. x.private_key_enc) (sym same);
                given = given;
                public_given = public;
                private_given = private;
              }
        ]
      ]
    ]
  ]
]

-- By the laws of hex, what is saved of a new account gives the private key without the password: the
-- unhexed hash of the password is the key of the exclusive or.
pub new_account-exposed :
    (enc : Encodings) (now : ℕ) (pair : KeyPair) (username password : Bytes) {a : Account}
    → EncodingLaws enc
    → IsKeyPair pair
    → new_account enc now (some pair) username password ≡ some a
    → read_with enc (as_saved a) ≡ some pair.private
unfolding read_with
new_account-exposed enc now pair username password {a} laws bytes e =
    let n = new_account-IsNew enc now pair username password e in
    rw
      (
        n.hash,
        laws.unhex-hex (enc.sha256 password),
        n.private,
        laws.unhex-hex (xor_from (enc.sha256 password) 0 pair.private),
        xor_from_twice (enc.sha256 password) 0 pair.private bytes.private_bytes,
        read_with,
      )
      refl

abbrev pub current_public_key : AccountManager → Option Bytes
current_public_key m = elim (get_current_account_of m) [ none ↦ none | some a ↦ some a.public_key ]

-- What CreateAccount leaves.
record IsCreated (enc : Encodings) (now : ℕ) (pair : KeyPair) (username password : Bytes)
    (m : AccountManager) : Type 0 where
  account : Account
  made : new_account enc now (some pair) username password ≡ some account
  found : lookup username m.accounts ≡ some account

create_account-IsCreated :
    (enc : Encodings) (now : ℕ) (pair : KeyPair) (can_write : Bool) (username password : Bytes)
    (m : AccountManager)
    → (create_account enc now (some pair) can_write username password m).1 ≡ none
    → IsCreated enc now pair username password
        (create_account enc now (some pair) can_write username password m).0
unfolding create_account
create_account-IsCreated enc now pair can_write username password m e =
    elim (Option-cases (lookup username m.accounts)) [
      | inr (a, taken) ↦
          absurd (let f : some account_exists ≡ none = rw (taken, create_account) at e in cc)
      | inl free ↦ elim (Option-cases (new_account enc now (some pair) username password)) [
        | inl bad ↦
            absurd (let f : some cannot_create ≡ none = rw (free, bad, create_account) at e in cc)
        | inr (a, made) ↦ elim (Option-cases (save_account can_write a m.saved)) [
          | inl lost ↦
              absurd
                (let f : some cannot_save ≡ none = rw (free, made, lost, create_account) at e in cc)
          | inr (saved, kept) ↦ record {
            account = a;
            made = made;
            found =
                rw
                  (
                    free,
                    made,
                    kept,
                    create_account,
                    lookup-store username username a m.accounts,
                    eq_self username,
                  )
                  refl;
          }
        ]
      ]
    ]

decrypt_bytes-sealed :
    (enc : Encodings) (password bytes : Bytes)
    → EncodingLaws enc
    → AreBytes bytes
    → is_empty password ≡ false
    → is_empty bytes ≡ false
    → decrypt_bytes enc (enc.hex (xor_from (enc.sha256 password) 0 bytes)) password ≡ some bytes
unfolding decrypt_bytes
decrypt_bytes-sealed enc password bytes laws are given filled =
    let key = enc.sha256 password in
    rw
      (
        laws.hex-filled (xor_from key 0 bytes) (xor_from-filled key 0 bytes filled),
        given,
        laws.unhex-hex (xor_from key 0 bytes),
        xor_from_twice key 0 bytes are,
        decrypt_bytes,
      )
      refl

-- The keys that a new account gives back under its password.
decrypt_account_keys-new_account :
    (enc : Encodings) (pair : KeyPair) (username password : Bytes) {a : Account}
    → EncodingLaws enc
    → IsKeyPair pair
    → IsNew enc pair username password a
    → decrypt_account_keys enc password a ≡ some pair
unfolding decrypt_account_keys
decrypt_account_keys-new_account enc pair username password {a} laws bytes n =
    rw
      (
        decrypt_account_keys,
        n.public,
        decrypt_bytes-sealed enc password pair.public laws bytes.public_bytes n.given
            n.public_given,
        n.private,
        decrypt_bytes-sealed enc password pair.private laws bytes.private_bytes n.given
            n.private_given,
      )
      refl

abbrev with_public : Encodings → KeyPair → Account → Account
with_public enc pair a = record a { public_key = enc.hex pair.public }

current_with_right :
    (enc : Encodings) (username password : Bytes) (pair : KeyPair) (m : AccountManager)
    {a : Account}
    → lookup username m.accounts ≡ some a
    → check_password enc password a ≡ true
    → decrypt_account_keys enc password a ≡ some pair
    → set_current_account_with_password enc username password m ≡ (
      record m {
        accounts = store username (with_public enc pair a) m.accounts;
        current = some username;
      },
      none,
    )
unfolding set_current_account_with_password
current_with_right enc username password pair m found same keys =
    rw (found, same, keys, set_current_account_with_password) refl

current_with_wrong :
    (enc : Encodings) (username password : Bytes) (m : AccountManager) {a : Account}
    → lookup username m.accounts ≡ some a
    → check_password enc password a ≡ false
    → set_current_account_with_password enc username password m ≡ (m, some wrong_password)
unfolding set_current_account_with_password
current_with_wrong enc username password m found differs =
    rw (found, differs, set_current_account_with_password) refl

-- By the laws of hex, after CreateAccount without an error, logging in with the same password succeeds
-- and makes an account with the public key of the generated pair the current one, while a password
-- with another hash is refused and changes nothing.
pub set_current_account_with_password-create_account :
    (enc : Encodings) (now : ℕ) (pair : KeyPair) (can_write : Bool)
    (username password other : Bytes) (m : AccountManager)
    → EncodingLaws enc
    → IsKeyPair pair
    → (create_account enc now (some pair) can_write username password m).1 ≡ none
    → (let made = (create_account enc now (some pair) can_write username password m).0 in
        ((set_current_account_with_password enc username password made).1 ≡ none)
        × (current_public_key (set_current_account_with_password enc username password made).0
            ≡ some (enc.hex pair.public))
        × (hash_password enc other ≢ hash_password enc password
            → set_current_account_with_password enc username other made
              ≡ (made, some wrong_password)))
unfolding check_password hash_password get_current_account_of
set_current_account_with_password-create_account enc now pair can_write username password other m
      laws bytes e =
    let made = (create_account enc now (some pair) can_write username password m).0 in
    let c = create_account-IsCreated enc now pair can_write username password m e in
    let n = new_account-IsNew enc now pair username password c.made in
    let logs_in =
      current_with_right enc username password pair made c.found
        (rw n.hash (eq_self (enc.hex (enc.sha256 password))))
        (decrypt_account_keys-new_account enc pair username password laws bytes n) in
    (
      ap (λ r. r.1) logs_in,
      ap (λ r. current_public_key r.0) logs_in
          ∙ rw
              (
                current_public_key,
                get_current_account_of,
                lookup-store username username (with_public enc pair c.account) made.accounts,
                eq_self username,
              )
              refl,
      λ differs.
          current_with_wrong enc username other made c.found
            (elim (Bool-cases (check_password enc other c.account)) [
              | inr refused ↦ refused
              | inl held ↦ absurd (
                  differs (
                    sym (
                      eq→≡ (enc.hex (enc.sha256 password)) (enc.hex (enc.sha256 other))
                        (rw n.hash at held))))
            ]),
    )
