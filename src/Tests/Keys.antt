-- ===== src/Tests/Keys.antt =====
-- src/storage/pinyin_phrase3.h on arrays of one key.
use Prim.Native.Nat.{Ordering}
use libpinyin.Common.{◌≡◌, ◌↔◌, refl, some, false, List, [], ◌∷◌}
use libpinyin.PinyinPhrase.{
  ChewingKey, pinyin_exact_compare2, pinyin_compare_with_tones, contains_incomplete_pinyin,
  compute_chewing_index, compute_incomplete_chewing_index,
}
use libpinyin.PinyinPhrase.Orders.{reverse, pinyin_compare-swap}
use libpinyin.PinyinPhrase.Index.{
  pinyin_exact_compare2-eq, pinyin_compare_with_tones-incomplete_index,
  pinyin_compare_with_tones-index,
}

-- The syllable ma, without a tone and in the third tone, and the lone initial m.
abbrev ma : List ChewingKey
ma = record { initial = 10; middle = 0; final = 1; tone = 0 } ∷ []

abbrev ma_third : List ChewingKey
ma_third = record { initial = 10; middle = 0; final = 1; tone = 3 } ∷ []

abbrev initial_m : List ChewingKey
initial_m = record { initial = 10; middle = 0; final = 0; tone = 0 } ∷ []

pinyin_compare-swap_example :
    (pinyin_exact_compare2 ma_third ma 1 ≡ reverse (pinyin_exact_compare2 ma ma_third 1))
    × (pinyin_compare_with_tones ma_third ma 1 ≡ reverse (pinyin_compare_with_tones ma ma_third 1))
pinyin_compare-swap_example = pinyin_compare-swap ma ma_third 1

pinyin_exact_compare2-eq_example :
    (pinyin_exact_compare2 ma ma_third 1 ≡ Ordering.eq) ↔ (ma ≡ ma_third)
pinyin_exact_compare2-eq_example = pinyin_exact_compare2-eq ma ma_third 1 refl refl

no_difference :
    (pinyin_compare_with_tones initial_m ma_third 1 ≡ Ordering.eq)
    × (pinyin_compare_with_tones ma ma_third 1 ≡ Ordering.eq)
unfolding pinyin_compare_with_tones
no_difference = (refl, refl)

pinyin_compare_with_tones-incomplete_index_example :
    compute_incomplete_chewing_index initial_m 1 ≡ compute_incomplete_chewing_index ma_third 1
pinyin_compare_with_tones-incomplete_index_example =
    pinyin_compare_with_tones-incomplete_index initial_m ma_third 1 refl refl no_difference.0

complete :
    (contains_incomplete_pinyin ma 1 ≡ some false)
    × (contains_incomplete_pinyin ma_third 1 ≡ some false)
unfolding contains_incomplete_pinyin
complete = (refl, refl)

pinyin_compare_with_tones-index_example :
    compute_chewing_index ma 1 ≡ compute_chewing_index ma_third 1
pinyin_compare_with_tones-index_example =
    pinyin_compare_with_tones-index ma ma_third 1 refl refl complete.0 complete.1 no_difference.1
