-- ===== src/MemoryChunk/File/Integrity.antt =====
-- The check sum of src/include/memory_chunk.h finds every change of a single byte.
use libpinyin.Common.{
  ℕ, ◌+◌, ◌*◌, ◌%◌, ◌^◌, ◌<◌, ◌≤◌, suc, zero, ap, ◌≡◌, ◌≢◌, refl, bit_xor, List, [], ◌∷◌, arith,
  length, take_all,
}
use libpinyin.Common.Words.{u32_mod, IsBytes}
use libpinyin.Common.Xor.{bit_xor-injective_right, bit_xor-injective_left, bit_xor-lt}
use libpinyin.MemoryChunk.File.{check_sum_remained, check_sum_from, get_check_sum}

remained-injective :
    (s t shift : ℕ) (bs : List ℕ)
    → check_sum_remained s shift bs ≡ check_sum_remained t shift bs
    → s ≡ t
unfolding check_sum_remained
remained-injective s t shift [] h = h
remained-injective s t shift (b ∷ bs) h = bit_xor-injective_right s t (b * 2 ^ shift % u32_mod) (
    remained-injective (bit_xor s (b * 2 ^ shift % u32_mod)) (bit_xor t (b * 2 ^ shift % u32_mod))
      (shift + 8) bs h)

check_sum_from-injective :
    (s t : ℕ) (bs : List ℕ) → check_sum_from s bs ≡ check_sum_from t bs → s ≡ t
unfolding check_sum_from
check_sum_from-injective s t [] h = h
check_sum_from-injective s t (a ∷ []) h = remained-injective s t 0 (a ∷ []) h
check_sum_from-injective s t (a ∷ b ∷ []) h = remained-injective s t 0 (a ∷ b ∷ []) h
check_sum_from-injective s t (a ∷ b ∷ c ∷ []) h = remained-injective s t 0 (a ∷ b ∷ c ∷ []) h
check_sum_from-injective s t (a ∷ b ∷ c ∷ d ∷ bs) h =
    let w : ℕ = a + b * 256 + c * 65536 + d * 16777216 in
    bit_xor-injective_right s t w (check_sum_from-injective (bit_xor s w) (bit_xor t w) bs h)

-- Two texts of bytes that differ in one place.
pub data DiffersOnce : List ℕ → List ℕ → Type 0 where
  here : {a b : ℕ} {xs : List ℕ} → a ≢ b → DiffersOnce (a ∷ xs) (b ∷ xs)
  there : {a : ℕ} {xs ys : List ℕ} → DiffersOnce xs ys → DiffersOnce (a ∷ xs) (a ∷ ys)

length-DiffersOnce : {xs ys : List ℕ} → DiffersOnce xs ys → 0 < length xs
length-DiffersOnce (here ne) = omega arith
length-DiffersOnce (there d) = omega arith

shifted-injective :
    (k a b : ℕ)
    → k < 4
    → a < 256
    → b < 256
    → a * 2 ^ (8 * k) % u32_mod ≡ b * 2 ^ (8 * k) % u32_mod
    → a ≡ b
shifted-injective zero a b p q r h = omega arith
shifted-injective (suc zero) a b p q r h = omega arith
shifted-injective (suc (suc zero)) a b p q r h = omega arith
shifted-injective (suc (suc (suc zero))) a b p q r h = omega arith
shifted-injective (suc (suc (suc (suc k)))) a b p q r h = absurd (omega arith)

-- A byte of the rest shows in the sum, since none is shifted out of the word.
remained-differs :
    (s k shift : ℕ) {xs ys : List ℕ}
    → DiffersOnce xs ys
    → shift ≡ 8 * k
    → k + length xs ≤ 4
    → IsBytes xs
    → IsBytes ys
    → check_sum_remained s shift xs ≢ check_sum_remained s shift ys
unfolding check_sum_remained
remained-differs s k shift (here {a = a} {b = b} {xs = xs} ne) e room p q h = ne (
    shifted-injective k a b (omega arith) p.0 q.0 (
      rw e at (
        bit_xor-injective_left (a * 2 ^ shift % u32_mod) (b * 2 ^ shift % u32_mod) s (
          remained-injective (bit_xor s (a * 2 ^ shift % u32_mod))
            (bit_xor s (b * 2 ^ shift % u32_mod)) (shift + 8) xs h))))
remained-differs s k shift (there {a = a} d) e room p q h =
    remained-differs (bit_xor s (a * 2 ^ shift % u32_mod)) (suc k) (shift + 8) d (omega arith)
      (omega arith) p.1 q.1 h

abbrev word : ℕ → ℕ → ℕ → ℕ → ℕ
word a b c d = a + b * 256 + c * 65536 + d * 16777216

-- A word that is read differently changes the sum of what follows.
words-differ :
    (s v w : ℕ) (bs : List ℕ)
    → v ≢ w
    → check_sum_from (bit_xor s v) bs ≢ check_sum_from (bit_xor s w) bs
words-differ s v w bs ne h =
    ne (bit_xor-injective_left v w s (check_sum_from-injective (bit_xor s v) (bit_xor s w) bs h))

check_sum_from_short :
    (s : ℕ) (xs : List ℕ) → length xs < 4 → check_sum_from s xs ≡ check_sum_remained s 0 xs
unfolding check_sum_from
check_sum_from_short s [] h = refl
check_sum_from_short s (a ∷ []) h = refl
check_sum_from_short s (a ∷ b ∷ []) h = refl
check_sum_from_short s (a ∷ b ∷ c ∷ []) h = refl
check_sum_from_short s (a ∷ b ∷ c ∷ d ∷ xs) h = absurd (omega arith)

pub same_length : {xs ys : List ℕ} → DiffersOnce xs ys → length xs ≡ length ys
same_length (here ne) = refl
same_length (there d) = ap suc (same_length d)

short-differs :
    (s : ℕ) (xs ys : List ℕ)
    → DiffersOnce xs ys
    → length xs < 4
    → IsBytes xs
    → IsBytes ys
    → check_sum_from s xs ≢ check_sum_from s ys
short-differs s xs ys d h p q =
    rw (check_sum_from_short s xs h, check_sum_from_short s ys (omega (arith, same_length d)))
      (remained-differs s 0 0 d refl (omega arith) p q)

check_sum_from-differs :
    (s : ℕ) (xs ys : List ℕ)
    → DiffersOnce xs ys
    → IsBytes xs
    → IsBytes ys
    → check_sum_from s xs ≢ check_sum_from s ys
unfolding check_sum_from
check_sum_from-differs s [] ys h p q = short-differs s [] ys h (omega arith) p q
check_sum_from-differs s (a ∷ []) ys h p q = short-differs s (a ∷ []) ys h (omega arith) p q
check_sum_from-differs s (a ∷ b ∷ []) ys h p q = short-differs s (a ∷ b ∷ []) ys h (omega arith) p q
check_sum_from-differs s (a ∷ b ∷ c ∷ []) ys h p q =
    short-differs s (a ∷ b ∷ c ∷ []) ys h (omega arith) p q
check_sum_from-differs s (a ∷ b ∷ c ∷ d ∷ xs) ys (here {b = a'} ne) p q =
    words-differ s (word a b c d) (word a' b c d) xs (λ e. ne (omega arith))
check_sum_from-differs s (a ∷ b ∷ c ∷ d ∷ xs) ys (there (here {b = b'} ne)) p q =
    words-differ s (word a b c d) (word a b' c d) xs (λ e. ne (omega arith))
check_sum_from-differs s (a ∷ b ∷ c ∷ d ∷ xs) ys (there (there (here {b = c'} ne))) p q =
    words-differ s (word a b c d) (word a b c' d) xs (λ e. ne (omega arith))
check_sum_from-differs s (a ∷ b ∷ c ∷ d ∷ xs) ys (there (there (there (here {b = d'} ne)))) p q =
    words-differ s (word a b c d) (word a b c d') xs (λ e. ne (omega arith))
check_sum_from-differs s (a ∷ b ∷ c ∷ d ∷ xs) ys (there (there (there (there {ys = zs} h)))) p q =
    check_sum_from-differs (bit_xor s (word a b c d)) xs zs h p.1.1.1.1 q.1.1.1.1

-- The check sum of a text of bytes tells it from every text that differs from it in one byte.
pub get_check_sum-differs :
    (xs ys : List ℕ)
    → DiffersOnce xs ys
    → IsBytes xs
    → IsBytes ys
    → get_check_sum xs (length xs) ≢ get_check_sum ys (length ys)
unfolding get_check_sum
get_check_sum-differs xs ys d p q =
    rw (take_all (length xs) xs (omega arith), take_all (length ys) ys (omega arith))
      (check_sum_from-differs 0 xs ys d p q)

remained-lt : (s shift : ℕ) (bs : List ℕ) → s < 2 ^ 32 → check_sum_remained s shift bs < 2 ^ 32
unfolding check_sum_remained
remained-lt s shift [] h = h
remained-lt s shift (b ∷ bs) h =
    remained-lt (bit_xor s (b * 2 ^ shift % u32_mod)) (shift + 8) bs
      (bit_xor-lt 32 s (b * 2 ^ shift % u32_mod) h (omega arith))

check_sum_from-lt : (s : ℕ) (bs : List ℕ) → s < 2 ^ 32 → IsBytes bs → check_sum_from s bs < 2 ^ 32
unfolding check_sum_from
check_sum_from-lt s [] h p = h
check_sum_from-lt s (a ∷ []) h p = remained-lt s 0 (a ∷ []) h
check_sum_from-lt s (a ∷ b ∷ []) h p = remained-lt s 0 (a ∷ b ∷ []) h
check_sum_from-lt s (a ∷ b ∷ c ∷ []) h p = remained-lt s 0 (a ∷ b ∷ c ∷ []) h
check_sum_from-lt s (a ∷ b ∷ c ∷ d ∷ bs) h p =
    check_sum_from-lt (bit_xor s (word a b c d)) bs (bit_xor-lt 32 s (word a b c d) h (omega arith))
      p.1.1.1.1

pub get_check_sum-lt : (bs : List ℕ) → IsBytes bs → get_check_sum bs (length bs) < 2 ^ 32
unfolding get_check_sum
get_check_sum-lt bs p =
    rw (take_all (length bs) bs (omega arith)) (check_sum_from-lt 0 bs (omega arith) p)
