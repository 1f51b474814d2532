-- ===== src/PinyinPhrase/Index.antt =====
-- What two arrays of keys have in common when src/storage/pinyin_phrase3.h finds no difference: the
-- indexes under which the phonetic tables file them.
use Prim.Native.Nat.{compare, Ordering}
use libpinyin.Common.{
  ℕ, zero, suc, ◌≡◌, ◌↔◌, refl, sym, ap₂, List, [], ◌∷◌, Bool, true, false, ◌&&◌, ◌==◌,
  if◌then◌else◌, arith, some, length, Option, assert, ◌>>=◌,
}
use libpinyin.PinyinPhrase.{
  ChewingKey, or_else, compare_each, pinyin_exact_compare2, pinyin_compare_with_tones,
  pinyin_compare_initial3, pinyin_compare_middle_and_final3, contains_incomplete_pinyin,
  compute_chewing_index, compute_incomplete_chewing_index, new_chewing_key,
}

compare-eq : (a b : ℕ) → (compare a b ≡ Ordering.eq) ↔ (a ≡ b)
compare-eq a b = ground arith

or_else-eq :
    (a b : Ordering) → (or_else a b ≡ Ordering.eq) ↔ ((a ≡ Ordering.eq) × (b ≡ Ordering.eq))
or_else-eq Ordering.lt b = (λ e. cc, λ e. e.0)
or_else-eq Ordering.eq b = (λ e. (refl, e), λ e. e.1)
or_else-eq Ordering.gt b = (λ e. cc, λ e. e.0)

-- The entries of two arrays agree as far as both are compared.
abbrev AllAgree :
    (ChewingKey → ChewingKey → Type 0) → ℕ → List ChewingKey → List ChewingKey → Type 0
AllAgree R zero ls rs = Unit {0}
AllAgree R (suc n) (l ∷ ls) (r ∷ rs) = R l r × AllAgree R n ls rs
AllAgree R (suc n) [] rs = Unit {0}
AllAgree R (suc n) (l ∷ ls) [] = Unit {0}

compare_each-eq :
    (f : ChewingKey → ChewingKey → Ordering) (R : ChewingKey → ChewingKey → Type 0)
    → ((l r : ChewingKey) → (f l r ≡ Ordering.eq) ↔ R l r)
    → (n : ℕ) (ls rs : List ChewingKey)
    → (compare_each f n ls rs ≡ Ordering.eq) ↔ AllAgree R n ls rs
unfolding compare_each
compare_each-eq f R h zero ls rs = (λ e. tt, λ e. refl)
compare_each-eq f R h (suc n) [] rs = (λ e. tt, λ e. refl)
compare_each-eq f R h (suc n) (l ∷ ls) [] = (λ e. tt, λ e. refl)
compare_each-eq f R h (suc n) (l ∷ ls) (r ∷ rs) =
    let rest = compare_each-eq f R h n ls rs in
    let both = or_else-eq (f l r) (compare_each f n ls rs) in
    (λ e. ((h l r).0 (both.0 e).0, rest.0 (both.0 e).1), λ e. both.1 ((h l r).1 e.0, rest.1 e.1))

middle_and_final-eq :
    (l r : ChewingKey)
    → (or_else (compare l.middle r.middle) (compare l.final r.final) ≡ Ordering.eq)
      ↔ ((l.middle ≡ r.middle) × (l.final ≡ r.final))
middle_and_final-eq l r = ground arith

same_parts :
    (n : ℕ) (ls rs : List ChewingKey)
    → length ls ≡ n
    → length rs ≡ n
    → AllAgree (λ l r. l.initial ≡ r.initial) n ls rs
    → AllAgree (λ l r. (l.middle ≡ r.middle) × (l.final ≡ r.final)) n ls rs
    → AllAgree (λ l r. l.tone ≡ r.tone) n ls rs
    → ls ≡ rs
same_parts zero [] [] p q a b c = refl
same_parts zero [] (r ∷ rs) p q a b c = absurd (omega arith)
same_parts zero (l ∷ ls) rs p q a b c = absurd (omega arith)
same_parts (suc n) [] rs p q a b c = absurd (omega arith)
same_parts (suc n) (l ∷ ls) [] p q a b c = absurd (omega arith)
same_parts (suc n) (l ∷ ls) (r ∷ rs) p q a b c =
    ap₂ (λ k ks. k ∷ ks)
      (λ i. record { initial = a.0 i; middle = b.0.0 i; final = b.0.1 i; tone = c.0 i })
      (same_parts n ls rs (omega arith) (omega arith) a.1 b.1 c.1)

AllAgree-refl :
    (R : ChewingKey → ChewingKey → Type 0)
    → ((k : ChewingKey) → R k k)
    → (n : ℕ) (ks : List ChewingKey) → AllAgree R n ks ks
AllAgree-refl R h zero ks = tt
AllAgree-refl R h (suc n) [] = tt
AllAgree-refl R h (suc n) (k ∷ ks) = (h k, AllAgree-refl R h n ks)

abbrev SameParts :
    ℕ → (ChewingKey → ChewingKey → Ordering) → (ChewingKey → ChewingKey → Type 0) → Type 0
SameParts n f R =
    (ls rs : List ChewingKey) → (compare_each f n ls rs ≡ Ordering.eq) ↔ AllAgree R n ls rs

module _ (n : ℕ) where
  first : SameParts n (λ l r. compare l.initial r.initial) (λ l r. l.initial ≡ r.initial)
  first =
      compare_each-eq (λ l r. compare l.initial r.initial) (λ l r. l.initial ≡ r.initial)
        (λ l r. compare-eq l.initial r.initial) n

  second :
      SameParts n
        (λ l r. or_else (compare l.middle r.middle) (compare l.final r.final))
        (λ l r. (l.middle ≡ r.middle) × (l.final ≡ r.final))
  second =
      compare_each-eq (λ l r. or_else (compare l.middle r.middle) (compare l.final r.final))
        (λ l r. (l.middle ≡ r.middle) × (l.final ≡ r.final)) middle_and_final-eq n

  third : SameParts n (λ l r. compare l.tone r.tone) (λ l r. l.tone ≡ r.tone)
  third =
      compare_each-eq (λ l r. compare l.tone r.tone) (λ l r. l.tone ≡ r.tone)
        (λ l r. compare-eq l.tone r.tone) n

-- pinyin_exact_compare2 finds two arrays equal exactly when they are.
pub pinyin_exact_compare2-eq :
    (ls rs : List ChewingKey) (n : ℕ)
    → length ls ≡ n
    → length rs ≡ n
    → (pinyin_exact_compare2 ls rs n ≡ Ordering.eq) ↔ (ls ≡ rs)
unfolding pinyin_exact_compare2
pinyin_exact_compare2-eq ls rs n p q = (forwards, λ e. rw (sym e) backwards)
  where
    forwards : pinyin_exact_compare2 ls rs n ≡ Ordering.eq → ls ≡ rs
    forwards e =
        let a = (or_else-eq _ _).0 e in
        let b = (or_else-eq _ _).0 a.1 in
        same_parts n ls rs p q ((first n ls rs).0 a.0) ((second n ls rs).0 b.0)
          ((third n ls rs).0 b.1)

    backwards : pinyin_exact_compare2 ls ls n ≡ Ordering.eq
    backwards = (or_else-eq _ _).1 (
      (first n ls ls).1 (AllAgree-refl _ (λ k. refl) n ls),
      (or_else-eq _ _).1 (
        (second n ls ls).1 (AllAgree-refl _ (λ k. (refl, refl)) n ls),
        (third n ls ls).1 (AllAgree-refl _ (λ k. refl) n ls),
      ),
    )

same_incomplete_index :
    (n : ℕ) (ls rs : List ChewingKey)
    → length ls ≡ n
    → length rs ≡ n
    → AllAgree (λ l r. l.initial ≡ r.initial) n ls rs
    → compute_incomplete_chewing_index ls n ≡ compute_incomplete_chewing_index rs n
unfolding compute_incomplete_chewing_index
same_incomplete_index zero ls rs p q a = refl
same_incomplete_index (suc n) [] rs p q a = absurd (omega arith)
same_incomplete_index (suc n) (l ∷ ls) [] p q a = absurd (omega arith)
same_incomplete_index (suc n) (l ∷ ls) (r ∷ rs) p q a =
    ap₂ (λ k ks. record new_chewing_key { initial = k } ∷ ks) a.0
      (same_incomplete_index n ls rs (omega arith) (omega arith) a.1)

-- The key does not lack both its middle and its final.
abbrev pub IsComplete : ChewingKey → Type 0
IsComplete k = ((k.middle == 0) && (k.final == 0)) ≡ false

complete_eq :
    (l r : ChewingKey)
    → IsComplete l
    → IsComplete r
    → pinyin_compare_middle_and_final3 l.middle r.middle l.final r.final ≡ Ordering.eq
    → (l.middle ≡ r.middle) × (l.final ≡ r.final)
unfolding pinyin_compare_middle_and_final3
complete_eq l r p q e = ground arith

head_cases :
    (b t : Bool) (rest : Option Bool)
    → (if b then (assert t >>= λ _. some true) else rest) ≡ some false
    → (b ≡ false) × (rest ≡ some false)
head_cases true true rest e = cc
head_cases true false rest e = cc
head_cases false t rest e = (refl, e)

head-IsComplete :
    (k : ChewingKey) (ks : List ChewingKey) (n : ℕ)
    → contains_incomplete_pinyin (k ∷ ks) (suc n) ≡ some false
    → IsComplete k × (contains_incomplete_pinyin ks n ≡ some false)
unfolding contains_incomplete_pinyin
head-IsComplete k ks n e =
    head_cases ((k.middle == 0) && (k.final == 0)) (k.tone == 0) (contains_incomplete_pinyin ks n) e

same_index :
    (n : ℕ) (ls rs : List ChewingKey)
    → length ls ≡ n
    → length rs ≡ n
    → contains_incomplete_pinyin ls n ≡ some false
    → contains_incomplete_pinyin rs n ≡ some false
    → AllAgree (λ l r. l.initial ≡ r.initial) n ls rs
    → AllAgree
        (λ l r. pinyin_compare_middle_and_final3 l.middle r.middle l.final r.final ≡ Ordering.eq)
        n
        ls
        rs
    → compute_chewing_index ls n ≡ compute_chewing_index rs n
unfolding compute_chewing_index
same_index zero ls rs p q u v a b = refl
same_index (suc n) [] rs p q u v a b = absurd (omega arith)
same_index (suc n) (l ∷ ls) [] p q u v a b = absurd (omega arith)
same_index (suc n) (l ∷ ls) (r ∷ rs) p q u v a b =
    let left = head-IsComplete l ls n u in
    let right = head-IsComplete r rs n v in
    let same = complete_eq l r left.0 right.0 b.0 in
    ap₂ (λ k ks. k ∷ ks)
      (λ i. record { initial = a.0 i; middle = same.0 i; final = same.1 i; tone = 0 })
      (same_index n ls rs (omega arith) (omega arith) left.1 right.1 a.1 b.1)

-- Two arrays of keys that pinyin_compare_with_tones finds equal have the same incomplete index.
pub pinyin_compare_with_tones-incomplete_index :
    (ls rs : List ChewingKey) (n : ℕ)
    → length ls ≡ n
    → length rs ≡ n
    → pinyin_compare_with_tones ls rs n ≡ Ordering.eq
    → compute_incomplete_chewing_index ls n ≡ compute_incomplete_chewing_index rs n
unfolding pinyin_compare_with_tones pinyin_compare_initial3
pinyin_compare_with_tones-incomplete_index ls rs n p q e =
    same_incomplete_index n ls rs p q ((first n ls rs).0 ((or_else-eq _ _).0 e).0)

-- Two arrays that pinyin_compare_with_tones finds equal, and of which neither contains an
-- incomplete key, have the same index, whatever their tones.
pub pinyin_compare_with_tones-index :
    (ls rs : List ChewingKey) (n : ℕ)
    → length ls ≡ n
    → length rs ≡ n
    → contains_incomplete_pinyin ls n ≡ some false
    → contains_incomplete_pinyin rs n ≡ some false
    → pinyin_compare_with_tones ls rs n ≡ Ordering.eq
    → compute_chewing_index ls n ≡ compute_chewing_index rs n
unfolding pinyin_compare_with_tones pinyin_compare_initial3
pinyin_compare_with_tones-index ls rs n p q u v e =
    let a = (or_else-eq _ _).0 e in
    let b = (or_else-eq _ _).0 a.1 in
    let finals =
      (compare_each-eq (λ l r. pinyin_compare_middle_and_final3 l.middle r.middle l.final r.final)
          (λ l r. pinyin_compare_middle_and_final3 l.middle r.middle l.final r.final ≡ Ordering.eq)
          (λ l r. (λ x. x, λ x. x)) n ls rs).0
        b.0 in
    same_index n ls rs p q u v ((first n ls rs).0 a.0) finals
