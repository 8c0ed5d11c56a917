-- ===== src/Friend/Blacklist.antt =====
-- The blacklist: internal/friend/blacklist.go. `Save` makes the directory and writes the file;
-- whether that succeeds is an argument of the call.
use t_chat.Base.{
  ◌≡◌, refl, Bool, false, not, ◌&&◌, ◌||◌, Option, none, some, List, [], ◌∷◌, ◌++◌, String,
  string_comparable, ◌==◌, if◌then◌else◌, arith, Bool-cases, inl, inr, Option-cases,
}

pub data Error : Type 0 where
  save_failed read_failed : Error

-- What `Load` finds on disk.
pub data Stored : Type 0 where
  missing unreadable : Stored
  users : List String → Stored

abbrev save : Bool → List String → List String × Option Error
save ok us = (us, if ok then none else some save_failed)

-- A file that cannot be read or decoded leaves the users as they were.
unfoldable pub load : Stored → List String → List String × Option Error
load missing us = ([], none)
load unreadable us = (us, some read_failed)
load (users stored) us = (stored, none)

unfoldable pub is_blocked : String → List String → Bool
is_blocked username [] = false
is_blocked username (u ∷ us) = u == username || is_blocked username us

unfoldable pub add : Bool → String → List String → List String × Option Error
unfolding is_blocked
add ok username us = if is_blocked username us then (us, none) else save ok (us ++ (username ∷ []))

-- The first entry with the name is cut out: `none` if there is none.
pub remove_first : String → List String → Option (List String)
remove_first username [] = none
remove_first username (u ∷ us) =
    if u == username
    then some us
    else elim (remove_first username us) [ none ↦ none | some rest ↦ some (u ∷ rest) ]

unfoldable pub remove : Bool → String → List String → List String × Option Error
unfolding remove_first
remove ok username us = elim (remove_first username us) [
  | none ↦ (us, none)
  | some rest ↦ save ok rest
]

abbrev pub HasNoRepeat : List String → Type 0
HasNoRepeat [] = Unit {0}
HasNoRepeat (u ∷ us) = (is_blocked u us ≡ false) × HasNoRepeat us

is_blocked-append :
    (v w : String) (us : List String) → is_blocked v (us ++ (w ∷ [])) ≡ (is_blocked v us || w == v)
unfolding is_blocked
is_blocked-append v w [] = ground arith
is_blocked-append v w (u ∷ us) = ground (arith, is_blocked-append v w us)

HasNoRepeat-append :
    (w : String) (us : List String)
    → is_blocked w us ≡ false
    → HasNoRepeat us
    → HasNoRepeat (us ++ (w ∷ []))
unfolding is_blocked
HasNoRepeat-append w [] h d = (refl, tt)
HasNoRepeat-append w (u ∷ us) h d = (
  ground (
    arith,
    is_blocked-append u w us,
    string_comparable.equals_iff u w,
    string_comparable.equals_iff w u,
  ),
  HasNoRepeat-append w us (ground arith) d.1,
)

-- `Add` blocks the user and nobody else, and keeps the list without repetitions, also when the
-- save fails.
pub is_blocked-add :
    (ok : Bool) (username other : String) (us : List String)
    → HasNoRepeat us
    → (is_blocked other (add ok username us).0 ≡ (is_blocked other us || username == other))
      × HasNoRepeat (add ok username us).0
unfolding add
is_blocked-add ok username other us d = elim (Bool-cases (is_blocked username us)) [
  | inl old ↦ (ground (arith, string_comparable.equals_iff username other), rw (old, add) d)
  | inr new ↦ (
    ground (arith, is_blocked-append other username us),
    rw (new, add) (HasNoRepeat-append username us new d),
  )
]

remove_first-none :
    (u : String) (us : List String) → remove_first u us ≡ none → is_blocked u us ≡ false
unfolding remove_first is_blocked
remove_first-none u [] h = refl
remove_first-none u (v ∷ us) h = ground (arith, remove_first-none u us)

is_blocked-remove_first :
    (u v : String) (us rest : List String)
    → HasNoRepeat us
    → remove_first u us ≡ some rest
    → is_blocked v rest ≡ (is_blocked v us && not (u == v))
unfolding remove_first is_blocked
is_blocked-remove_first u v [] rest d h = cc
is_blocked-remove_first u v (w ∷ us) rest d h = elim (Bool-cases (w == u)) [
  | inl hit ↦ ground (
    arith,
    string_comparable.equals_iff w u,
    string_comparable.equals_iff w v,
    string_comparable.equals_iff u v,
    string_comparable.equals_iff v w,
  )
  | inr miss ↦ elim (Option-cases (remove_first u us)) [
    | inl gone ↦ absurd (ground arith)
    | inr (rest', found) ↦ ground (
      arith,
      is_blocked-remove_first u v us rest' d.1,
      string_comparable.equals_iff w u,
      string_comparable.equals_iff w v,
      string_comparable.equals_iff u v,
    )
  ]
]

remove_first-HasNoRepeat :
    (u : String) (us rest : List String)
    → HasNoRepeat us
    → remove_first u us ≡ some rest
    → HasNoRepeat rest
unfolding remove_first
remove_first-HasNoRepeat u [] rest d h = cc
remove_first-HasNoRepeat u (w ∷ us) rest d h = elim (Bool-cases (w == u)) [
  | inl hit ↦ let e : us ≡ rest = ground arith in rw (← e) d.1
  | inr miss ↦ elim (Option-cases (remove_first u us)) [
    | inl gone ↦ absurd (ground arith)
    | inr (rest', found) ↦
        let e : w ∷ rest' ≡ rest = ground arith in
        rw (← e) (
          ground (arith, is_blocked-remove_first u w us rest' d.1),
          remove_first-HasNoRepeat u us rest' d.1 found,
        )
  ]
]

-- On a list without repetitions `Remove` unblocks the user and nobody else, and keeps the list
-- without repetitions.
pub is_blocked-remove :
    (ok : Bool) (username other : String) (us : List String)
    → HasNoRepeat us
    → (is_blocked other (remove ok username us).0
        ≡ (is_blocked other us && not (username == other)))
      × HasNoRepeat (remove ok username us).0
unfolding remove
is_blocked-remove ok username other us d = elim (Option-cases (remove_first username us)) [
  | inl gone ↦ (
    ground (arith, remove_first-none username us, string_comparable.equals_iff username other),
    rw (gone, remove) d,
  )
  | inr (rest, found) ↦ (
    ground (arith, is_blocked-remove_first username other us rest d found),
    rw (found, remove) (remove_first-HasNoRepeat username us rest d found),
  )
]
