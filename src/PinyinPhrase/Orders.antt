-- ===== src/PinyinPhrase/Orders.antt =====
-- The comparisons of src/storage/pinyin_phrase3.h with their operands swapped.
use Prim.Native.Nat.{compare, Ordering}
use libpinyin.Common.{ℕ, zero, suc, ◌≡◌, refl, List, [], ◌∷◌, ◌==◌, arith}
use libpinyin.PinyinPhrase.{
  ChewingKey, or_else, compare_each, pinyin_exact_compare2, pinyin_compare_with_tones,
  pinyin_compare_initial3, pinyin_compare_middle_and_final3, pinyin_compare_tone3,
}

abbrev pub reverse : Ordering → Ordering
reverse Ordering.lt = Ordering.gt
reverse Ordering.eq = Ordering.eq
reverse Ordering.gt = Ordering.lt

compare_swap : (a b : ℕ) → compare b a ≡ reverse (compare a b)
compare_swap a b = ground arith

==_comm : (a b : ℕ) → (a == b) ≡ (b == a)
==_comm a b = ground arith

or_else-reverse :
    (a b c d : Ordering) → a ≡ reverse b → c ≡ reverse d → or_else a c ≡ reverse (or_else b d)
or_else-reverse a Ordering.lt c d h k = rw h refl
or_else-reverse a Ordering.eq c d h k = rw h k
or_else-reverse a Ordering.gt c d h k = rw h refl

-- A comparison of keys that swaps with its operands makes such a comparison of arrays.
compare_each_swap :
    (f : ChewingKey → ChewingKey → Ordering)
    → ((l r : ChewingKey) → f r l ≡ reverse (f l r))
    → (ls rs : List ChewingKey) (n : ℕ) → compare_each f n rs ls ≡ reverse (compare_each f n ls rs)
unfolding compare_each
compare_each_swap f h ls rs zero = refl
compare_each_swap f h [] [] (suc n) = refl
compare_each_swap f h [] (r ∷ rs) (suc n) = refl
compare_each_swap f h (l ∷ ls) [] (suc n) = refl
compare_each_swap f h (l ∷ ls) (r ∷ rs) (suc n) =
    or_else-reverse _ _ _ _ (h l r) (compare_each_swap f h ls rs n)

middle_and_final_swap :
    (a b c d : ℕ)
    → pinyin_compare_middle_and_final3 b a d c ≡ reverse (pinyin_compare_middle_and_final3 a b c d)
unfolding pinyin_compare_middle_and_final3
middle_and_final_swap a b c d = ground arith

tone_swap : (a b : ℕ) → pinyin_compare_tone3 b a ≡ reverse (pinyin_compare_tone3 a b)
unfolding pinyin_compare_tone3
tone_swap a b = ground arith

-- Swapping the operands of pinyin_exact_compare2 or of pinyin_compare_with_tones reverses the
-- result, for keys of every kind, incomplete ones included.
pub pinyin_compare-swap :
    (ls rs : List ChewingKey) (n : ℕ)
    → (pinyin_exact_compare2 rs ls n ≡ reverse (pinyin_exact_compare2 ls rs n))
      × (pinyin_compare_with_tones rs ls n ≡ reverse (pinyin_compare_with_tones ls rs n))
unfolding pinyin_exact_compare2 pinyin_compare_with_tones pinyin_compare_initial3
pinyin_compare-swap ls rs n = (
  or_else-reverse _ _ _ _
      (compare_each_swap (λ l r. compare l.initial r.initial)
        (λ l r. compare_swap l.initial r.initial) ls rs n)
      (or_else-reverse _ _ _ _
        (compare_each_swap (λ l r. or_else (compare l.middle r.middle) (compare l.final r.final))
          (λ l r.
            or_else-reverse _ _ _ _ (compare_swap l.middle r.middle) (compare_swap l.final r.final))
          ls rs n)
        (compare_each_swap (λ l r. compare l.tone r.tone) (λ l r. compare_swap l.tone r.tone) ls rs
          n)),
  or_else-reverse _ _ _ _
      (compare_each_swap (λ l r. compare l.initial r.initial)
        (λ l r. compare_swap l.initial r.initial) ls rs n)
      (or_else-reverse _ _ _ _
        (compare_each_swap
          (λ l r. pinyin_compare_middle_and_final3 l.middle r.middle l.final r.final)
          (λ l r. middle_and_final_swap l.middle r.middle l.final r.final) ls rs n)
        (compare_each_swap (λ l r. pinyin_compare_tone3 l.tone r.tone)
          (λ l r. tone_swap l.tone r.tone) ls rs n)),
)
