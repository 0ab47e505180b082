-- ===== src/Protocol/SessionManager.antt =====
-- `protocol/session_manager.py`: sessions by their ID, in a dict.
use batt_lock.Base.{
  ◌≡◌, ◌↔◌, refl, Bool, true, false, if◌then◌else◌, List, [], ◌∷◌, Option, none, some, list_eq,
  list_eq_iff, Text, arith, Bool-cases, inl, inr,
}

pub record SessionManager : Type 0 where
  pub sessions : List (Text × Text)

abbrev pub new_manager : SessionManager
new_manager = record { sessions = [] }

-- `d[k] = v`, which keeps the place of a key that is there.
insert : Text → Text → List (Text × Text) → List (Text × Text)
insert k v [] = (k, v) ∷ []
insert k v ((j, w) ∷ d) = if list_eq j k then (j, v) ∷ d else (j, w) ∷ insert k v d

-- `d.get(k)`
lookup : Text → List (Text × Text) → Option Text
lookup k [] = none
lookup k ((j, w) ∷ d) = if list_eq j k then some w else lookup k d

-- `k in d`
has_key : Text → List (Text × Text) → Bool
has_key k [] = false
has_key k ((j, w) ∷ d) = if list_eq j k then true else has_key k d

pub add_session : Text → Text → SessionManager → SessionManager
unfolding insert
add_session session_id battery_id m = record m {
  sessions = insert session_id battery_id m.sessions;
}

pub session_exists : Text → SessionManager → Bool
unfolding has_key
session_exists session_id m = has_key session_id m.sessions

pub get_battery : Text → SessionManager → Option Text
unfolding lookup
get_battery session_id m = lookup session_id m.sessions

lookup-insert :
    (k j v : Text) (d : List (Text × Text))
    → lookup j (insert k v d) ≡ (if list_eq k j then some v else lookup j d)
unfolding lookup insert
lookup-insert k j v [] = refl
lookup-insert k j v ((i, w) ∷ d) =
    ground (arith, list_eq_iff k j, list_eq_iff i k, list_eq_iff i j, lookup-insert k j v d)

-- After `add_session` the ID belongs to the battery that was added, whatever it belonged to
-- before; every other ID belongs to the battery that it had, or to none.
pub get_battery-add_session :
    (k j v : Text) (m : SessionManager)
    → get_battery j (add_session k v m) ≡ (if list_eq k j then some v else get_battery j m)
unfolding get_battery add_session
get_battery-add_session k j v m = lookup-insert k j v m.sessions

has_key-lookup :
    (k : Text) (d : List (Text × Text)) → has_key k d ≡ true → (v : Text) × (lookup k d ≡ some v)
unfolding has_key lookup
has_key-lookup k [] h = cc
has_key-lookup k ((j, w) ∷ d) h = elim (Bool-cases (list_eq j k)) [
  | inl here ↦ (w, rw here)
  | inr later ↦ rw later (has_key-lookup k d (rw later at h))
]

lookup-has_key : (k v : Text) (d : List (Text × Text)) → lookup k d ≡ some v → has_key k d ≡ true
unfolding has_key lookup
lookup-has_key k v [] h = cc
lookup-has_key k v ((j, w) ∷ d) h = ground (arith, lookup-has_key k v d)

-- `session_exists` says yes for exactly the IDs for which `get_battery` has an answer.
pub session_exists_iff :
    (k : Text) (m : SessionManager)
    → (session_exists k m ≡ true) ↔ ((v : Text) × (get_battery k m ≡ some v))
unfolding session_exists get_battery
session_exists_iff k m = (has_key-lookup k m.sessions, λ (v, e). lookup-has_key k v m.sessions e)
