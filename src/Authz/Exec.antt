-- ===== src/Authz/Exec.antt =====
-- What a write that succeeds has done to the database.
use incord.Authz.Tables.{Db}
use incord.Authz.Pool.{UuidCodec, Pool, Query, exec_query}
use incord.Authz.Writes.{Result, ok, err, run_exec}
use incord.Base.{
  ◌≡◌, ◌≢◌, sym, ap, Bool, true, false, Option, none, some, Bool-cases, inl, inr, if◌then◌else◌,
}

abbrev db_or : Db → Result (Option Pool) → Db
db_or d (ok (some c)) = c.db
db_or d (ok none) = d
db_or d (err e) = d

abbrev fails_or : Pool → Result (Option Pool) → Query → Bool
fails_or d (ok (some x)) = x.fails
fails_or d (ok none) = d.fails
fails_or d (err e) = d.fails

-- A successful statement leaves the database that it computed, and the same faults.
pub exec_lem :
    (codec : UuidCodec) (c c' : Pool) (o : Option Db)
    → run_exec codec c o ≡ ok (some c')
    → (o ≡ some c'.db) × (c'.fails ≡ c.fails)
exec_lem codec c c' none h = cc
exec_lem codec c c' (some db) h = elim (Bool-cases (c.fails exec_query)) [
  | inl e ↦ cc (rw e at h)
  | inr e ↦ (ap (λ r. some (db_or db r)) (rw e at h), ap (λ r. fails_or c r) (sym (rw e at h)))
]

pub if-some : {A : Type 0} → (b : Bool) (x y : A) → (if b then some x else none) ≡ some y → x ≡ y
if-some true x y h = cc
if-some false x y h = cc

abbrev has_pool : Result (Option Pool) → Bool
has_pool (ok (some c)) = true
has_pool (ok none) = false
has_pool (err e) = true

-- A statement that runs returns a pool or an error.
pub exec_has_pool : (codec : UuidCodec) (c : Pool) (o : Option Db) → run_exec codec c o ≢ ok none
exec_has_pool codec c none h = let e : true ≡ false = ap has_pool h in cc
exec_has_pool codec c (some db) h = elim (Bool-cases (c.fails exec_query)) [
  | inl e ↦ let d : true ≡ false = ap has_pool (rw e at h) in cc
  | inr e ↦ let d : true ≡ false = ap has_pool (rw e at h) in cc
]
