-- ===== src/PinyinPhrase.antt =====
-- src/storage/chewing_key.h and src/storage/pinyin_phrase3.h: keys of a syllable, and the orders
-- on arrays of them by which the phonetic tables are sorted and searched.
--
-- A comparison gives an int of which the callers use the sign, so it is an Ordering here: the sign
-- of `lhs - rhs` is `compare lhs rhs`. An array of keys is a list of at least phrase_length keys;
-- what lies behind a shorter one counts as equal.
pub mod Orders
pub mod Index
use Prim.Native.Nat.{compare, Ordering}
use libpinyin.Common.{
  ℕ, zero, suc, Bool, true, false, ◌&&◌, Option, none, some, List, [], ◌∷◌, ◌==◌, if◌then◌else◌,
  ◌>>=◌, assert,
}

pub record ChewingKey : Type 0 where
  pub initial : ℕ
  pub middle : ℕ
  pub final : ℕ
  pub tone : ℕ

-- The constructor: CHEWING_ZERO_INITIAL, CHEWING_ZERO_MIDDLE, CHEWING_ZERO_FINAL and
-- CHEWING_ZERO_TONE are 0.
abbrev pub new_chewing_key : ChewingKey
new_chewing_key = record { initial = 0; middle = 0; final = 0; tone = 0 }

-- operator ==.
unfoldable pub same_key : ChewingKey → ChewingKey → Bool
same_key lhs rhs =
    if lhs.initial == rhs.initial
    then if lhs.middle == rhs.middle
      then if lhs.final == rhs.final then lhs.tone == rhs.tone else false
      else false
    else false

-- `if (0 != result) return result;` before what follows.
abbrev pub or_else : Ordering → Ordering → Ordering
or_else Ordering.eq rest = rest
or_else result rest = result

-- A loop over i < phrase_length that returns the first difference.
unfoldable pub compare_each :
    (ChewingKey → ChewingKey → Ordering) → ℕ → List ChewingKey → List ChewingKey → Ordering
compare_each f zero ls rs = Ordering.eq
compare_each f (suc n) (l ∷ ls) (r ∷ rs) = or_else (f l r) (compare_each f n ls rs)
compare_each f (suc n) _ _ = Ordering.eq

unfoldable pub pinyin_exact_compare2 : List ChewingKey → List ChewingKey → ℕ → Ordering
unfolding compare_each
pinyin_exact_compare2 ls rs n =
    or_else (compare_each (λ l r. compare l.initial r.initial) n ls rs) (
      or_else
        (compare_each (λ l r. or_else (compare l.middle r.middle) (compare l.final r.final)) n ls
          rs)
        (compare_each (λ l r. compare l.tone r.tone) n ls rs))

unfoldable pub pinyin_compare_initial3 : ℕ → ℕ → Ordering
pinyin_compare_initial3 lhs rhs = compare lhs rhs

unfoldable pub pinyin_compare_middle_and_final3 : ℕ → ℕ → ℕ → ℕ → Ordering
pinyin_compare_middle_and_final3 middle_lhs middle_rhs final_lhs final_rhs =
    if (middle_lhs == middle_rhs) && (final_lhs == final_rhs)
    then Ordering.eq
    else if (middle_lhs == 0) && (final_lhs == 0)
    then Ordering.eq
    else if (middle_rhs == 0) && (final_rhs == 0)
    then Ordering.eq
    else or_else (compare middle_lhs middle_rhs) (compare final_lhs final_rhs)

unfoldable pub pinyin_compare_tone3 : ℕ → ℕ → Ordering
pinyin_compare_tone3 lhs rhs =
    if lhs == rhs
    then Ordering.eq
    else if lhs == 0
    then Ordering.eq
    else if rhs == 0
    then Ordering.eq
    else compare lhs rhs

unfoldable pub pinyin_compare_with_tones : List ChewingKey → List ChewingKey → ℕ → Ordering
unfolding compare_each pinyin_compare_initial3 pinyin_compare_middle_and_final3 pinyin_compare_tone3
pinyin_compare_with_tones ls rs n =
    or_else (compare_each (λ l r. pinyin_compare_initial3 l.initial r.initial) n ls rs) (
      or_else
        (compare_each (λ l r. pinyin_compare_middle_and_final3 l.middle r.middle l.final r.final) n
          ls rs)
        (compare_each (λ l r. pinyin_compare_tone3 l.tone r.tone) n ls rs))

-- `none` is the failed assertion that an incomplete key has no tone.
unfoldable pub contains_incomplete_pinyin : List ChewingKey → ℕ → Option Bool
contains_incomplete_pinyin keys zero = some false
contains_incomplete_pinyin [] (suc n) = some false
contains_incomplete_pinyin (key ∷ keys) (suc n) =
    let rest = contains_incomplete_pinyin keys n in
    if (key.middle == 0) && (key.final == 0)
    then (assert (key.tone == 0) >>= λ _. some true)
    else rest

unfoldable pub compute_chewing_index : List ChewingKey → ℕ → List ChewingKey
compute_chewing_index _ zero = []
compute_chewing_index [] (suc n) = []
compute_chewing_index (key ∷ keys) (suc n) = record key { tone = 0 } ∷ compute_chewing_index keys n

unfoldable pub compute_incomplete_chewing_index : List ChewingKey → ℕ → List ChewingKey
compute_incomplete_chewing_index _ zero = []
compute_incomplete_chewing_index [] (suc n) = []
compute_incomplete_chewing_index (key ∷ keys) (suc n) =
    record new_chewing_key { initial = key.initial } ∷ compute_incomplete_chewing_index keys n
