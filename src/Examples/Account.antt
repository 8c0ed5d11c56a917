-- ===== src/Examples/Account.antt =====
-- Runs of the account manager: internal/account.
use t_chat.Base.{◌≡◌, ◌≢◌, refl, true, none, some, [], ◌∷◌, Bytes, lookup, arith}
use t_chat.Account.{
  Encodings, KeyPair, Account, encrypt_bytes, hash_password, new_account, generate_and_encrypt_keys,
  is_valid_account,
}
use t_chat.Account.Xor.{xor_from, xor_digits}
use t_chat.Account.Managers.{
  AccountManager, wrong_password, as_saved, save_account, create_account,
  set_current_account_with_password,
}
use t_chat.Account.Login.{
  EncodingLaws, IsKeyPair, read_with, current_public_key, new_account-exposed,
  set_current_account_with_password-create_account,
}

abbrev plain_encodings : Encodings
plain_encodings = record { sha256 = λ bs. bs; hex = λ bs. bs; unhex = λ bs. some bs }

plain_encodings-EncodingLaws : EncodingLaws plain_encodings
plain_encodings-EncodingLaws = record { unhex-hex = λ bytes. refl; hex-filled = λ bytes h. h }

abbrev made_pair : KeyPair
made_pair = record { public = 200 ∷ 3 ∷ []; private = 17 ∷ 255 ∷ 4 ∷ [] }

made_pair-IsKeyPair : IsKeyPair made_pair
made_pair-IsKeyPair = record {
  public_bytes = (omega arith, (omega arith, tt));
  private_bytes = (omega arith, (omega arith, (omega arith, tt)));
}

abbrev secret : Bytes
secret = 1 ∷ 2 ∷ 3 ∷ 4 ∷ 5 ∷ 6 ∷ []

abbrev other_secret : Bytes
other_secret = 2 ∷ secret

abbrev signed_up : Account
signed_up = record {
  username = 97 ∷ [];
  password_hash = secret;
  public_key = [];
  public_key_enc = 201 ∷ 1 ∷ [];
  private_key_enc = 16 ∷ 253 ∷ 7 ∷ [];
  created_at = 5;
}

new_account-exposed_example :
    read_with plain_encodings (as_saved signed_up) ≡ some (17 ∷ 255 ∷ 4 ∷ [])
unfolding new_account generate_and_encrypt_keys encrypt_bytes hash_password xor_from xor_digits
new_account-exposed_example =
    new_account-exposed plain_encodings 5 made_pair (97 ∷ []) secret {a = signed_up}
      plain_encodings-EncodingLaws made_pair-IsKeyPair refl

abbrev first_manager : AccountManager
first_manager = record { accounts = []; current = none; saved = [] }

abbrev after_sign_up : AccountManager
after_sign_up =
    (create_account plain_encodings 5 (some made_pair) true (97 ∷ []) secret first_manager).0

set_current_account_with_password-create_account_example :
    ((set_current_account_with_password plain_encodings (97 ∷ []) secret after_sign_up).1 ≡ none)
    × (current_public_key
          (set_current_account_with_password plain_encodings (97 ∷ []) secret after_sign_up).0
        ≡ some (200 ∷ 3 ∷ []))
    × (hash_password plain_encodings other_secret ≢ hash_password plain_encodings secret
        → set_current_account_with_password plain_encodings (97 ∷ []) other_secret after_sign_up
          ≡ (after_sign_up, some wrong_password))
unfolding create_account new_account generate_and_encrypt_keys encrypt_bytes hash_password
    save_account lookup is_valid_account xor_from
set_current_account_with_password-create_account_example =
    set_current_account_with_password-create_account plain_encodings 5 made_pair true (97 ∷ [])
      secret other_secret first_manager plain_encodings-EncodingLaws made_pair-IsKeyPair refl
