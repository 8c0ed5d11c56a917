-- ===== src/Account/Managers.antt =====
-- The account manager: internal/account/manager.go over the storage of storage.go. The files of the
-- accounts are a map from user names; the account that is current is one of the map, so its name
-- stands for it. Whether writing succeeds is an argument; a write that fails leaves what was there.
-- The storage keeps its files in the directory accounts, which is the default and the one that the
-- manager reads itself.
use t_chat.Base.{
  ℕ, Bool, true, false, not, ◌&&◌, Option, none, some, [], ◌∷◌, Bytes, bytes_comparable, ◌==◌,
  if◌then◌else◌, GoMap, lookup, store, remove,
}
use t_chat.Account.{
  Encodings, KeyPair, Account, new_account, check_password, decrypt_account_keys, is_valid_account,
}
use t_chat.Account.Xor.{is_empty}

pub record AccountManager : Type 0 where
  pub accounts : GoMap Bytes Account
  pub current : Option Bytes
  pub saved : GoMap Bytes Account

pub data AccountError : Type 0 where
  account_exists cannot_create cannot_save no_account wrong_password cannot_decrypt : AccountError

-- What the JSON of an account leaves out.
abbrev pub as_saved : Account → Account
as_saved a = record a { public_key = [] }

-- SaveAccount of the storage.
unfoldable pub save_account : Bool → Account → GoMap Bytes Account → Option (GoMap Bytes Account)
save_account can_write a saved =
    if is_valid_account a && can_write then some (store a.username (as_saved a) saved) else none

-- LoadAccount of the storage.
unfoldable pub load_account : Bytes → GoMap Bytes Account → Option Account
load_account username saved = if is_empty username then none else elim (lookup username saved) [
  | none ↦ none
  | some a ↦ if is_valid_account a then some a else none
]

unfoldable pub account_exists_in : Bytes → GoMap Bytes Account → Bool
account_exists_in username saved = elim (load_account username saved) [
  | none ↦ false
  | some a ↦ true
]

unfoldable pub create_account :
    Encodings
    → ℕ
    → Option KeyPair
    → Bool
    → Bytes
    → Bytes
    → AccountManager
    → AccountManager × Option AccountError
create_account enc now pair can_write username password m = elim (lookup username m.accounts) [
  | some a ↦ (m, some account_exists)
  | none ↦ elim (new_account enc now pair username password) [
    | none ↦ (m, some cannot_create)
    | some a ↦ elim (save_account can_write a m.saved) [
      | none ↦ (m, some cannot_save)
      | some saved ↦ (
        record m { accounts = store username a m.accounts; current = some username; saved = saved },
        none,
      )
    ]
  ]
]

unfoldable pub get_account : Bytes → AccountManager → Option Account
get_account username m = lookup username m.accounts

unfoldable pub get_current_account_of : AccountManager → Option Account
get_current_account_of m = elim m.current [ none ↦ none | some name ↦ lookup name m.accounts ]

unfoldable pub set_current_account_to :
    Bytes → AccountManager → AccountManager × Option AccountError
set_current_account_to username m = elim (lookup username m.accounts) [
  | none ↦ (m, some no_account)
  | some a ↦ (record m { current = some username }, none)
]

unfoldable pub set_current_account_with_password :
    Encodings → Bytes → Bytes → AccountManager → AccountManager × Option AccountError
set_current_account_with_password enc username password m = elim (lookup username m.accounts) [
  | none ↦ (m, some no_account)
  | some a ↦
      if not (check_password enc password a)
      then (m, some wrong_password)
      else elim (decrypt_account_keys enc password a) [
        | none ↦ (m, some cannot_decrypt)
        | some pair ↦ (
          record m {
            accounts = store username (record a { public_key = enc.hex pair.public }) m.accounts;
            current = some username;
          },
          none,
        )
      ]
]

unfoldable pub delete_account : Bytes → AccountManager → AccountManager × Option AccountError
delete_account username m = elim (lookup username m.accounts) [
  | none ↦ (m, some no_account)
  | some a ↦ (
    record m {
      accounts = remove username m.accounts;
      saved = remove username m.saved;
      current = elim m.current [
        | none ↦ none
        | some name ↦ if name == username then none else some name
      ];
    },
    none,
  )
]

abbrev pub loaded : GoMap Bytes Account → GoMap Bytes Account → GoMap Bytes Account
loaded [] accounts = accounts
loaded ((dir, a) ∷ rest) accounts = loaded rest (store a.username a accounts)

-- NewManager, with what is saved.
unfoldable pub load_accounts : GoMap Bytes Account → AccountManager
load_accounts saved = record { accounts = loaded saved []; current = none; saved = saved }
