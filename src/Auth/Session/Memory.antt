-- ===== src/Auth/Session/Memory.antt =====
-- auth/session.py, `SessionStore`.
use future_bi.Base.{
  ℕ, String, Bool, Option, none, some, List, [], ◌∷◌, map, keep, length, if◌then◌else◌, is_some,
}
use future_bi.Base.Dict.{Dict, lookup, insert, remove}
use future_bi.Auth.Session.{Session, is_expired}

abbrev pub Store : Type 0
Store = Dict Session

unfoldable pub create : Store → Session → Store
create d s = insert s.session_id s d

get_found : Store → ℕ → String → Option Session → Store × Option Session
get_found d now id none = (d, none)
get_found d now id (some s) = if is_expired now s then (remove id d, none) else (d, some s)

unfoldable pub get : Store → ℕ → String → Store × Option Session
unfolding get_found
get d now id = get_found d now id (lookup id d)

unfoldable pub revoke : Store → String → Store × Bool
revoke d id = (remove id d, is_some (lookup id d))

unfoldable pub pop_all : List String → Store → Store
pop_all [] d = d
pop_all (id ∷ ids) d = pop_all ids (remove id d)

-- the ids are collected first, and then taken out
unfoldable pub prune : Store → ℕ → Store × ℕ
unfolding pop_all
prune d now =
    let expired : List String = map (λ e. e.0) (keep (λ e. is_expired now e.1) d) in
    (pop_all expired d, length expired)
