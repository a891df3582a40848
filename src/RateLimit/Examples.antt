-- ===== src/RateLimit/Examples.antt =====
-- The rate limit theorems at a server that keeps its entries as a function of the key.
use incord.RateLimit.{Request, outcomes, has_colon}
use incord.RateLimit.Redis.{
  Command, incr, expire, Pipeline, Entry, at_time, value_of, bumped, renewed, apply_all, answered,
  IsRedis,
}
use incord.RateLimit.Streaks.{decisions, unlimited, outcomes-streaks}
use incord.RateLimit.Bursts.{repeated, verdicts, outcomes-repeated}
use incord.Base.{
  ℕ, suc, ◌≡◌, ◌+◌, refl, false, Option, none, some, [], ◌∷◌, Text, codes, any, has_prefix, text_eq,
  if◌then◌else◌, arith,
}

abbrev Keys : Type 0
Keys = Text → Option Entry

abbrev write : Keys → Text → Option Entry → Keys
write s k e j = if text_eq k j then e else s j

abbrev one_command : Keys → Command → ℕ → Keys × ℕ
one_command s (incr k) t =
    (write s k (some (bumped (at_time t (s k)))), suc (value_of (at_time t (s k))))
one_command s (expire k w) t = (write s k (renewed (t + w) (at_time t (s k))), 1)

abbrev no_keys : Keys
no_keys k = none

abbrev server : Pipeline Keys
server s cs t = answered (apply_all one_command s cs t)

server-IsRedis : IsRedis server no_keys
server-IsRedis = record {
  apply = one_command;
  entry = λ s k. s k;
  exec-apply = λ s cs t. refl;
  entry-empty = λ k. refl;
  reply-incr = λ s k t. refl;
  entry-incr = λ s k j t. refl;
  entry-expire = λ s k j w t. refl;
}

abbrev hello : Request
hello = record {
  method = codes "/user.v1.UserService/SendFriendRequest";
  user_id = codes "u";
  peer = none;
  now = 5;
}

hello_limited : unlimited hello.method ≡ false
unfolding has_prefix
hello_limited = refl

hello_plain : has_colon hello.method ≡ false
unfolding any
hello_plain = refl

outcomes-streaks_example :
    outcomes server no_keys (hello ∷ record hello { now = 9 } ∷ [])
    ≡ decisions [] (hello ∷ record hello { now = 9 } ∷ [])
outcomes-streaks_example =
    outcomes-streaks server no_keys server-IsRedis (hello ∷ record hello { now = 9 } ∷ [])
      (omega arith, hello_plain, (omega arith, hello_plain, tt))

outcomes-repeated_example :
    outcomes server no_keys (repeated hello 5 (4 ∷ 7 ∷ [])) ≡ verdicts hello.method 0 (4 ∷ 7 ∷ [])
outcomes-repeated_example =
    outcomes-repeated server no_keys server-IsRedis hello 5 (4 ∷ 7 ∷ []) hello_limited hello_plain
      (omega arith, (omega arith, tt))
