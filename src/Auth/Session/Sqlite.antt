-- ===== src/Auth/Session/Sqlite.antt =====
-- auth/session.py, `SqliteSessionStore`.
use future_bi.Base.{
  ℕ, ◌-◌, String, Bool, not, Option, none, some, List, [], ◌∷◌, ◌++◌, keep, length, str_eq,
  if◌then◌else◌, is_some,
}
use future_bi.Auth.Session.{Session, is_expired}

abbrev pub Table : Type 0
Table = List Session

-- `SELECT ... WHERE session_id = ?`, `fetchone`
unfoldable pub select : String → Table → Option Session
select id [] = none
select id (s ∷ t) = if str_eq s.session_id id then some s else select id t

-- `DELETE ... WHERE session_id = ?`
unfoldable pub delete : String → Table → Table
delete id t = keep (λ s. not (str_eq s.session_id id)) t

-- `INSERT`: an error on an id that is there
unfoldable pub create : Table → Session → Option Table
create t s = if is_some (select s.session_id t) then none else some (t ++ s ∷ [])

get_found : Table → ℕ → String → Option Session → Table × Option Session
unfolding delete
get_found t now id none = (t, none)
get_found t now id (some s) = if is_expired now s then (delete id t, none) else (t, some s)

unfoldable pub get : Table → ℕ → String → Table × Option Session
unfolding get_found
get t now id = get_found t now id (select id t)

-- `rowcount > 0`
unfoldable pub revoke : Table → String → Table × Bool
unfolding delete
revoke t id = (delete id t, is_some (select id t))

-- `DELETE ... WHERE expires_at <= ?`, and its `rowcount`
unfoldable pub prune : Table → ℕ → Table × ℕ
prune t now =
    (keep (λ s. not (is_expired now s)) t, length t - length (keep (λ s. not (is_expired now s)) t))
