-- ===== src/Authz/Pool.antt =====
-- What the client of internal/shared/authz/client.go stands on. `Option Pool` is the `*Client`, nil
-- in tests. A pool holds the tables and says which queries of the call fail. The codec is pgtype's
-- reading and writing of UUIDs, of which the code relies on the two laws of `UuidCodec`.
use incord.Authz.Tables.{Db}
use incord.Base.{ℕ, ◌≡◌, Bool, Option, none, some, [], Text}

pub record UuidCodec : Type 0 where
  pub parse : Text → Option ℕ
  pub format : ℕ → Text
  pub parse-format : (u : ℕ) → parse (format u) ≡ some u
  pub parse-nil : parse [] ≡ none

pub data Query : Type 0 where
  check_query owner_or_admin_query override_query channel_query dm_member_query : Query
  act_on_query exec_query full_query list_query : Query

pub record Pool : Type 0 where
  pub db : Db
  pub fails : Query → Bool

-- `if err != nil { return d }` on the way to the result.
abbrev pub or_else : {A : Type 0} → Bool → Option A → (A → Bool) → Bool
or_else d none k = d
or_else d (some a) k = k a
