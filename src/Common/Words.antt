-- ===== src/Common/Words.antt =====
-- Little-endian words: the bytes of a guint16 or a guint32 in memory, and back.
use Prim.Native.Nat.{ℕ, ◌+◌, ◌-◌, ◌*◌, ◌/◌, ◌%◌, ◌^◌, ◌<◌}
use mathlib.Core.Path.{◌≡◌}
use mathlib.Core.List.{List, [], ◌∷◌, ◌++◌}
use native.Mathlib.Omega.{arith}

abbrev pub u32_mod : ℕ
u32_mod = 2 ^ 32

-- Addition and subtraction of guint32.
abbrev pub add32 : ℕ → ℕ → ℕ
add32 a b = (a + b) % u32_mod

abbrev pub sub32 : ℕ → ℕ → ℕ
sub32 a b = (a + u32_mod - b) % u32_mod

abbrev pub encode32 : ℕ → List ℕ
encode32 n = n % 256 ∷ n / 256 % 256 ∷ n / 65536 % 256 ∷ n / 16777216 % 256 ∷ []

abbrev pub decode32 : List ℕ → ℕ
decode32 (a ∷ b ∷ c ∷ d ∷ _) = a + b * 256 + c * 65536 + d * 16777216
decode32 _ = 0

pub decode32-encode32 : (n : ℕ) → n < u32_mod → decode32 (encode32 n) ≡ n
decode32-encode32 n h = omega arith

abbrev pub u16_mod : ℕ
u16_mod = 2 ^ 16

abbrev pub encode16 : ℕ → List ℕ
encode16 n = n % 256 ∷ n / 256 % 256 ∷ []

abbrev pub decode16 : List ℕ → ℕ
decode16 (a ∷ b ∷ _) = a + b * 256
decode16 _ = 0

pub decode16-encode16 : (n : ℕ) → n < u16_mod → decode16 (encode16 n) ≡ n
decode16-encode16 n h = omega arith

-- Every entry is a byte.
abbrev pub IsBytes : List ℕ → Type 0
IsBytes [] = Unit {0}
IsBytes (b ∷ bs) = (b < 256) × IsBytes bs

pub encode32-IsBytes : (n : ℕ) → IsBytes (encode32 n)
encode32-IsBytes n = omega arith

pub IsBytes-append : (xs ys : List ℕ) → IsBytes xs → IsBytes ys → IsBytes (xs ++ ys)
IsBytes-append [] ys p q = q
IsBytes-append (x ∷ xs) ys p q = (p.0, IsBytes-append xs ys p.1 q)
