-- ===== src/Tests/Memos.antt =====
-- Concrete memos.
use bolts_rebuilt.Prelude.{◌+◌, ◌≡◌, ◌&&◌, not, refl, false, [], ◌∷◌, arith, ltb, ◌==◌, update}
use bolts_rebuilt.Memo.Translation.{
  new_memo as new_translation_memo, Stats as TranslationStats, find as find_translation,
  publish as publish_translation,
}
use bolts_rebuilt.Memo.Translation.Owner.{Owner, Step, Reach, find-Reach}
use bolts_rebuilt.Memo.Descriptor.{no_index}
use bolts_rebuilt.Memo.Descriptor.Map.{Views, Agrees, lookup, lookup_map, lookup_lem}
use bolts_rebuilt.Memo.ReadyPair.{new_memo, find as find_pair}
use bolts_rebuilt.Memo.ReadyPair.Library.{Call, run, published, answers, find-run}
use bolts_rebuilt.Memo.Ownership.{
  Claim, matches, publish as publish_claim, keys_match, lengths_match, slots, publish-matches,
}
use bolts_rebuilt.Prelude.Bits.{bit}

abbrev no_counts : TranslationStats
no_counts = record { hits = 0; misses = 0; publications = 0; invalidations = 0 }

abbrev empty_owner : Owner
empty_owner = record { memo = new_translation_memo; translations = λ m. 0; stats = no_counts }

abbrev with_translation : Owner
with_translation = record empty_owner { translations = update (λ m. 0) 6 512 }

abbrev looked_up : Owner
looked_up = record with_translation {
  memo =
      (publish_translation with_translation.memo 6 512
        (find_translation with_translation.memo 6 no_counts).1).0;
  stats =
      (publish_translation with_translation.memo 6 512
        (find_translation with_translation.memo 6 no_counts).1).1;
}

looked_up-Reach : Reach looked_up
unfolding find_translation new_translation_memo
looked_up-Reach =
    Reach.step with_translation looked_up
      (Reach.step empty_owner with_translation (Reach.start no_counts)
        (Step.create empty_owner 6 512 refl))
      (Step.miss with_translation 6 refl)

find-Reach_example :
    (find_translation looked_up.memo 6 looked_up.stats).0 ≡ looked_up.translations 6
unfolding find_translation publish_translation new_translation_memo
find-Reach_example = find-Reach looked_up 6 looked_up-Reach (λ h. omega arith)

abbrev views : Views
views = record {
  memo = record { key = 4; index = 9 };
  indices = update (λ k. no_index) 4 9;
  stats = record { hits = 0; misses = 0; publications = 0; failed_lookups = 0 };
}

lookup_lem_example :
    ((lookup views 7 12).0 ≡ lookup_map views.indices 7 12)
    × ((lookup views 7 12).1.indices 4 ≡ update views.indices 7 (lookup_map views.indices 7 12) 4)
    × Agrees (lookup views 7 12).1
unfolding Agrees
lookup_lem_example = lookup_lem views 7 12 4 (λ h. refl)

find-run_example :
    (find_pair (run new_memo (Call.publishes 1 2 64 ∷ Call.finds 1 2 ∷ [])) 1 2).0
    ≡ answers (published new_memo.entry (Call.publishes 1 2 64 ∷ Call.finds 1 2 ∷ [])) 1 2
find-run_example = find-run new_memo (Call.publishes 1 2 64 ∷ Call.finds 1 2 ∷ []) 1 2

abbrev claim : Claim
claim = record {
  owner = 8;
  generation = 3;
  used_bits = 3;
  count = 2;
  keys = λ slot. slot + 10;
  lengths_tiles = λ i. 40;
}

abbrev shorter : Claim
shorter = record claim { lengths_tiles = λ i. 30 }

publish-matches_example :
    (shorter.owner ≡ claim.owner)
    × (shorter.generation ≡ claim.generation)
    × (shorter.used_bits ≡ claim.used_bits)
    × (shorter.count ≡ claim.count)
    × ((ltb 1 slots && bit claim.used_bits 1 && not (shorter.keys 1 == claim.keys 1)) ≡ false)
    × ((ltb 1 claim.count && ltb (claim.lengths_tiles 1) (shorter.lengths_tiles 1)) ≡ false)
unfolding matches publish_claim keys_match lengths_match bit
publish-matches_example = publish-matches claim shorter (λ slot. slot + 100) 1 refl
