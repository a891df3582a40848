-- ===== src/Authz/Hierarchy.antt =====
-- CanActOn of internal/shared/authz/client.go is a strict order on the members of a guild.
use incord.Authz.Tables.{Db, can_act_on_sql}
use incord.Authz.Pool.{UuidCodec, Pool}
use incord.Authz.Checks.{can_act_on}
use incord.Base.{ℕ, ◌≡◌, true, false, some, Option-cases, inl, inr, Text, arith}

module _ (db : Db) (gid : ℕ) where
  sql_asym : (a b : ℕ) → can_act_on_sql db a b gid ≡ true → can_act_on_sql db b a gid ≡ false
  unfolding can_act_on_sql
  sql_asym a b h = ground arith

  sql_trans :
      (a b c : ℕ)
      → can_act_on_sql db a b gid ≡ true
      → can_act_on_sql db b c gid ≡ true
      → can_act_on_sql db a c gid ≡ true
  unfolding can_act_on_sql
  sql_trans a b c h k = ground arith

module _ (codec : UuidCodec) (p : Pool) (guild : Text) where
  -- Of two members at most one may act on the other, and nobody on themselves, not even the owner.
  pub can_act_on_asym :
      (a b : Text)
      → can_act_on codec (some p) a b guild ≡ true
      → can_act_on codec (some p) b a guild ≡ false
  unfolding can_act_on
  can_act_on_asym a b h = elim (Option-cases (codec.parse a)) [
    | inl e ↦ ground (arith, e)
    | inr (u, e) ↦ elim (Option-cases (codec.parse b)) [
      | inl d ↦ ground (arith, e, d)
      | inr (v, d) ↦ elim (Option-cases (codec.parse guild)) [
        | inl f ↦ ground (arith, e, d, f)
        | inr (g, f) ↦ ground (arith, e, d, f, sql_asym p.db g u v)
      ]
    ]
  ]

  -- Whoever may act on someone may act on all whom that one may act on.
  can_act_on_trans :
      (a b c : Text)
      → can_act_on codec (some p) a b guild ≡ true
      → can_act_on codec (some p) b c guild ≡ true
      → can_act_on codec (some p) a c guild ≡ true
  unfolding can_act_on
  can_act_on_trans a b c h k = elim (Option-cases (codec.parse a)) [
    | inl e ↦ ground (arith, e)
    | inr (u, e) ↦ elim (Option-cases (codec.parse b)) [
      | inl d ↦ ground (arith, e, d)
      | inr (v, d) ↦ elim (Option-cases (codec.parse guild)) [
        | inl f ↦ ground (arith, e, d, f)
        | inr (g, f) ↦ elim (Option-cases (codec.parse c)) [
          | inl i ↦ ground (arith, e, d, f, i)
          | inr (w, i) ↦ ground (arith, e, d, f, i, sql_trans p.db g u v w)
        ]
      ]
    ]
  ]
