-- ===== src/Messages/Mentions.antt =====
-- internal/features/message/service.go: what dedupMentions keeps.
use incord.Messages.{dedup_after, dedup_mentions}
use incord.Base.{
  ◌≡◌, refl, ap, Bool, true, false, not, ◌&&◌, ◌||◌, List, [], ◌∷◌, Text, any, text_eq, text_eq_iff,
  arith, Bool-cases, inl, inr,
}

-- Each of the ids is another one than those after it.
unfoldable pub distinct : List Text → Bool
distinct [] = true
distinct (id ∷ ids) = not (any (text_eq id) ids) && distinct ids

unfoldable refused : Text → List Text → Text → Bool
refused author seen id = text_eq id [] || text_eq id author || any (text_eq id) seen

module _ (author : Text) where
  keeps :
      (seen ids : List Text) (x : Text)
      → any (text_eq x) (dedup_after author seen ids)
        ≡ (any (text_eq x) ids && not (refused author seen x))
  unfolding dedup_after any refused
  keeps seen [] x = refl
  keeps seen (id ∷ ids) x = elim (Bool-cases (text_eq x id)) [
    | inl e ↦
        let same : x ≡ id = (text_eq_iff x id).0 e in
        let as_one : refused author seen x ≡ refused author seen id =
          ap (refused author seen) same in
        ground (arith, as_one, e, keeps seen ids x, keeps (id ∷ seen) ids x)
    | inr e ↦ ground (arith, e, keeps seen ids x, keeps (id ∷ seen) ids x)
  ]

  no_second :
      (seen ids : List Text) (id : Text)
      → text_eq id id ≡ true
      → any (text_eq id) (dedup_after author (id ∷ seen) ids) ≡ false
  unfolding any refused
  no_second seen ids id same = ground (arith, same, keeps (id ∷ seen) ids id)

  distinct_after : (seen ids : List Text) → distinct (dedup_after author seen ids) ≡ true
  unfolding dedup_after distinct
  distinct_after seen [] = refl
  distinct_after seen (id ∷ ids) =
      let same : text_eq id id ≡ true = (text_eq_iff id id).1 refl in
      let gone : any (text_eq id) (dedup_after author (id ∷ seen) ids) ≡ false =
        no_second seen ids id same in
      ground (arith, gone, distinct_after seen ids, distinct_after (id ∷ seen) ids)

-- The list of the mentioned users is free of repetitions, and an id is on it exactly when the
-- caller gave it and it is neither empty nor the author's.
pub dedup_mentions_lem :
    (ids : List Text) (author : Text)
    → (distinct (dedup_mentions ids author) ≡ true)
      × ((id : Text)
          → any (text_eq id) (dedup_mentions ids author)
            ≡ (any (text_eq id) ids && not (text_eq id [] || text_eq id author)))
unfolding dedup_mentions refused any
dedup_mentions_lem ids author =
    (distinct_after author [] ids, λ id. ground (arith, keeps author [] ids id))
