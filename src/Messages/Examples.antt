-- ===== src/Messages/Examples.antt =====
-- Tests of the mentions of a message, and the theorem at a concrete list.
use incord.Messages.{
  dedup_after, dedup_mentions, scan, index_of, is_alnum, stands_alone, after, find_mention,
  contains_everyone_mention,
}
use incord.Messages.Search.{Decides, calls_everyone, contains_everyone_mention-decides}
use incord.Messages.Mentions.{distinct, dedup_mentions_lem}
use incord.Base.{
  ◌≡◌, refl, true, not, ◌&&◌, ◌||◌, List, [], some, false, has_prefix, arith, ◌∷◌, Text, codes, any,
  text_eq,
}

abbrev given_ids : List Text
given_ids = codes "b" ∷ codes "a" ∷ [] ∷ codes "c" ∷ codes "b" ∷ []

dedup_mentions_test : dedup_mentions given_ids (codes "a") ≡ codes "b" ∷ codes "c" ∷ []
unfolding dedup_mentions dedup_after text_eq any
dedup_mentions_test = refl

dedup_mentions_example :
    (distinct (dedup_mentions given_ids (codes "a")) ≡ true)
    × ((id : Text)
        → any (text_eq id) (dedup_mentions given_ids (codes "a"))
          ≡ (any (text_eq id) given_ids && not (text_eq id [] || text_eq id (codes "a"))))
dedup_mentions_example = dedup_mentions_lem given_ids (codes "a")

contains_everyone_mention_test : contains_everyone_mention 20 (codes "me@here, @here!") ≡ some true
unfolding contains_everyone_mention find_mention after index_of scan stands_alone is_alnum
    has_prefix
contains_everyone_mention_test = refl

address_test : contains_everyone_mention 20 (codes "me@here") ≡ some false
unfolding contains_everyone_mention find_mention after index_of scan stands_alone is_alnum
    has_prefix
address_test = refl

contains_everyone_mention-decides_example :
    Decides
      (calls_everyone (codes "me@here, @here!"))
      (contains_everyone_mention 20 (codes "me@here, @here!"))
contains_everyone_mention-decides_example =
    contains_everyone_mention-decides 20 (codes "me@here, @here!") (omega arith)
