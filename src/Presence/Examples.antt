-- ===== src/Presence/Examples.antt =====
-- The presence theorems at a store that keeps a log of its hashes.
use incord.Presence.{
  Presence, State, Env, presence_key, parse_int, update_presence, publish_presence, get_presence,
}
use incord.Presence.Store.{Hashes, IsHashes, field}
use incord.Presence.Reads.{second, update-get}
use incord.Base.{
  ◌≡◌, ◌+◌, refl, sym, ap, false, Option, none, some, List, [], ◌∷◌, Text, codes, text_eq,
  text_eq_iff, if◌then◌else◌, arith,
}
use incord.Base.Int.{pos}

abbrev Log : Type 0
Log = List (Text × List (Text × Text))

abbrev write : Log → Text → List (Text × Text) → Option Log
write s k [] = none
write s k (f ∷ fs) = some ((k, f ∷ fs) ∷ s)

abbrev read : Log → Text → Option (List (Text × Text))
read [] k = some []
read ((j, fs) ∷ s) k = let older = read s k in if text_eq j k then some fs else older

abbrev log : Hashes Log
log = record { hset = write; hgetall = read; format_int = λ n. (b'0' + n) ∷ [] }

abbrev log_or : Log → Option Log → Log
log_or d none = d
log_or d (some s) = s

written_back :
    (s s' : Log) (k : Text) (fs : List (Text × Text))
    → write s k fs ≡ some s'
    → (v : Text × Text) × (vals : List (Text × Text)) × (read s' k ≡ some (v ∷ vals))
      × ((f x : Text) → field f fs ≡ some x → field f (v ∷ vals) ≡ some x)
written_back s s' k [] h = cc
written_back s s' k (f ∷ fs) h =
    (f, fs, rw (sym (ap (log_or s) h), (text_eq_iff k k).1 refl), λ g x e. e)

others_kept :
    (s s' : Log) (k j : Text) (fs : List (Text × Text))
    → write s k fs ≡ some s'
    → text_eq k j ≡ false
    → read s' j ≡ read s j
others_kept s s' k j [] h e = cc
others_kept s s' k j (f ∷ fs) h e = rw (sym (ap (log_or s) h), e)

log-IsHashes : IsHashes log
log-IsHashes = record { hgetall-hset = written_back; hgetall-other = others_kept }

abbrev env : Env
env = record { now = record { seconds = 5; nanos = 700 }; nats = false; resolver = none }

abbrev start : State Log
start = record { redis = []; events = [] }

abbrev idle : State Log
idle = record start {
  redis =
      (
        presence_key (codes "u"),
        (codes "status", codes "idle")
            ∷ (codes "custom_status", codes "afk")
            ∷ (codes "last_seen", codes "5")
            ∷ [],
      )
      ∷ [];
}

abbrev shown : Presence
shown = record {
  user_id = codes "u";
  status = pos 2;
  custom_status = codes "afk";
  last_seen = some (record { seconds = pos 5; nanos = 700 });
}

update-get_example :
    (shown.last_seen ≡ some (record { seconds = pos 5; nanos = 700 }))
    × (get_presence log idle (codes "u")
        ≡ some (record shown { last_seen = some (second env.now) }))
    × (get_presence log idle (codes "v") ≡ get_presence log start (codes "v"))
unfolding update_presence publish_presence parse_int text_eq
update-get_example =
    update-get log log-IsHashes env start idle (codes "u") (codes "v") 2 (codes "afk") shown
      (omega arith) (omega arith) refl refl refl
