-- ===== src/MemoryChunk/File/Checks.antt =====
-- The checks that load and mmap of src/include/memory_chunk.h make on a file.
use libpinyin.Common.{
  ℕ, ◌+◌, ◌-◌, ◌*◌, ◌%◌, ◌<◌, ap, sym, ◌∙◌, ◌≡◌, ◌≢◌, refl, true, false, some, none, List, ◌∷◌,
  ◌++◌, arith, length, take, take_all, not_lt→ltb, ==_iff,
}
use libpinyin.Common.Words.{u32_mod, IsBytes, encode32, decode32, decode32-encode32}
use libpinyin.MemoryChunk.{MemoryChunk, malloced, mapped, other, empty_chunk}
use libpinyin.MemoryChunk.Growth.{freemem_lem}
use libpinyin.MemoryChunk.File.{get_check_sum, verified, checked_data, load, mmap}
use libpinyin.MemoryChunk.File.Integrity.{
  DiffersOnce, here, there, same_length, get_check_sum-differs, get_check_sum-lt,
}

abbrev word : ℕ → ℕ → ℕ → ℕ → ℕ
word a b c d = a + b * 256 + c * 65536 + d * 16777216

-- The eight bytes of the header, and the rest of the file.
pub checked_data-parts :
    (a b c d e f g h : ℕ) (content : List ℕ)
    → length content < u32_mod
    → checked_data (a ∷ b ∷ c ∷ d ∷ e ∷ f ∷ g ∷ h ∷ content)
      ≡ verified (word a b c d) (word e f g h) (length content) content
unfolding checked_data
checked_data-parts a b c d e f g h content r =
    rw (not_lt→ltb (length (a ∷ b ∷ c ∷ d ∷ e ∷ f ∷ g ∷ h ∷ content)) 8 (omega arith), checked_data)
      (ap (λ n. verified (word a b c d) (word e f g h) n (take n content)) data_len_eq
        ∙ ap (verified (word a b c d) (word e f g h) (length content))
            (take_all (length content) content (omega arith)))
  where
    data_len_eq : (length (a ∷ b ∷ c ∷ d ∷ e ∷ f ∷ g ∷ h ∷ content) - 8) % u32_mod ≡ length content
    data_len_eq = omega arith

pub verified-some :
    (len checksum : ℕ) (content : List ℕ)
    → len ≡ length content
    → checksum ≡ get_check_sum content (length content)
    → verified len checksum (length content) content ≡ some content
unfolding verified
verified-some len checksum content p q =
    rw ((==_iff (length content) len).1 (sym p), (==_iff checksum _).1 q)

pub verified-ne-len :
    (len checksum : ℕ) (content : List ℕ)
    → len ≢ length content
    → verified len checksum (length content) content ≡ none
unfolding verified
verified-ne-len len checksum content p = ground arith

pub verified-ne-checksum :
    (len checksum : ℕ) (content : List ℕ)
    → checksum ≢ get_check_sum content (length content)
    → verified len checksum (length content) content ≡ none
unfolding verified
verified-ne-checksum len checksum content p = ground arith

-- A failed or refused file leaves the chunk empty; the data of a good one is taken over.
pub read_cases :
    (c : MemoryChunk) (file : List ℕ)
    → c.free_func ≢ other
    → (checked_data file ≡ none
        → (load c (some file) ≡ some (empty_chunk, false))
          × (mmap c (some file) ≡ some (empty_chunk, false)))
      × ((content : List ℕ)
          → checked_data file ≡ some content
          → (load c (some file)
              ≡ some (
                record { buffer = content; data_end = length content; free_func = malloced },
                true,
              ))
            × (mmap c (some file)
                ≡ some (
                  record { buffer = content; data_end = length content; free_func = mapped },
                  true,
                )))
unfolding load mmap
read_cases c file ok = (
  λ e. (rw (freemem_lem c.free_func ok, e) refl, rw (freemem_lem c.free_func ok, e) refl),
  λ content e. (rw (freemem_lem c.free_func ok, e) refl, rw (freemem_lem c.free_func ok, e) refl),
)

pub verified-some_inv :
    (len checksum : ℕ) (content xs : List ℕ)
    → verified len checksum (length content) content ≡ some xs
    → (len ≡ length content) × (checksum ≡ get_check_sum content (length content))
unfolding verified
verified-some_inv len checksum content xs h = ground arith

-- The file that save makes.
abbrev pub saved_file : List ℕ → List ℕ
saved_file xs = encode32 (length xs) ++ (encode32 (get_check_sum xs (length xs)) ++ xs)

module _ (a b c d e f g h : ℕ) (xs : List ℕ) (small : length xs < u32_mod) where
  pub refused_len :
      word a b c d ≢ length xs → checked_data (a ∷ b ∷ c ∷ d ∷ e ∷ f ∷ g ∷ h ∷ xs) ≡ none
  refused_len ne =
      checked_data-parts a b c d e f g h xs small ∙ verified-ne-len _ (word e f g h) xs ne

  pub refused_checksum :
      word e f g h ≢ get_check_sum xs (length xs)
      → checked_data (a ∷ b ∷ c ∷ d ∷ e ∷ f ∷ g ∷ h ∷ xs) ≡ none
  refused_checksum ne =
      checked_data-parts a b c d e f g h xs small ∙ verified-ne-checksum (word a b c d) _ xs ne

-- Every byte of a file that passes the checks is guarded: those of the length and of the check sum
-- by comparison, those of the data by the check sum.
pub checked_data-differs :
    (a b c d e f g h : ℕ) (xs ys zs : List ℕ)
    → length xs < u32_mod
    → IsBytes (a ∷ b ∷ c ∷ d ∷ e ∷ f ∷ g ∷ h ∷ xs)
    → IsBytes ys
    → checked_data (a ∷ b ∷ c ∷ d ∷ e ∷ f ∷ g ∷ h ∷ xs) ≡ some zs
    → DiffersOnce (a ∷ b ∷ c ∷ d ∷ e ∷ f ∷ g ∷ h ∷ xs) ys
    → checked_data ys ≡ none
checked_data-differs a b c d e f g h xs ys zs small p q good diff = cases diff q
  where
    intact : (word a b c d ≡ length xs) × (word e f g h ≡ get_check_sum xs (length xs))
    intact =
        verified-some_inv (word a b c d) (word e f g h) xs zs
          (sym (checked_data-parts a b c d e f g h xs small) ∙ good)

    in_data :
        (ws : List ℕ)
        → DiffersOnce xs ws
        → IsBytes ws
        → checked_data (a ∷ b ∷ c ∷ d ∷ e ∷ f ∷ g ∷ h ∷ ws) ≡ none
    in_data ws diff q =
        refused_checksum a b c d e f g h ws (omega (arith, same_length diff))
          (λ k. get_check_sum-differs xs ws diff p.1.1.1.1.1.1.1.1 q (sym intact.1 ∙ k))

    cases :
        {ws : List ℕ}
        → DiffersOnce (a ∷ b ∷ c ∷ d ∷ e ∷ f ∷ g ∷ h ∷ xs) ws
        → IsBytes ws
        → checked_data ws ≡ none
    cases (here {b = k} ne) q =
        refused_len k b c d e f g h xs small (λ r. ne (omega (arith, intact)))
    cases (there (here {b = k} ne)) q =
        refused_len a k c d e f g h xs small (λ r. ne (omega (arith, intact)))
    cases (there (there (here {b = k} ne))) q =
        refused_len a b k d e f g h xs small (λ r. ne (omega (arith, intact)))
    cases (there (there (there (here {b = k} ne)))) q =
        refused_len a b c k e f g h xs small (λ r. ne (omega (arith, intact)))
    cases (there (there (there (there (here {b = k} ne))))) q =
        refused_checksum a b c d k f g h xs small (λ r. ne (omega (arith, intact)))
    cases (there (there (there (there (there (here {b = k} ne)))))) q =
        refused_checksum a b c d e k g h xs small (λ r. ne (omega (arith, intact)))
    cases (there (there (there (there (there (there (here {b = k} ne))))))) q =
        refused_checksum a b c d e f k h xs small (λ r. ne (omega (arith, intact)))
    cases (there (there (there (there (there (there (there (here {b = k} ne)))))))) q =
        refused_checksum a b c d e f g k xs small (λ r. ne (omega (arith, intact)))
    cases (there (there (there (there (there (there (there (there {ys = ws} diff)))))))) q =
        in_data ws diff q.1.1.1.1.1.1.1.1

module _ (xs : List ℕ) (small : length xs < u32_mod) (p : IsBytes xs) where
  pub checksum_decodes :
      decode32 (encode32 (get_check_sum xs (length xs))) ≡ get_check_sum xs (length xs)
  checksum_decodes = decode32-encode32 _ (get_check_sum-lt xs p)

  pub checked_data-saved_file : checked_data (saved_file xs) ≡ some xs
  checked_data-saved_file =
      checked_data-parts _ _ _ _ _ _ _ _ xs small
      ∙ verified-some _ _ xs (decode32-encode32 (length xs) small) checksum_decodes
