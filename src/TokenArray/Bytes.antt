-- ===== src/TokenArray/Bytes.antt =====
-- How the items of TokenArray.antt lie in the bytes of a chunk.
use libpinyin.Common.{
  ℕ, ◌-◌, ◌*◌, ◌/◌, ◌<◌, ◌≡◌, refl, sym, ap, ap₂, subst, ◌∙◌, List, [], ◌∷◌, ◌++◌, arith, length,
  drop, drop_past, length-append, append_assoc, take_all, take-append_le,
}
use native.Mathlib.Nat.{div-eq_of_eq-mul_right}
use libpinyin.Common.Words.{u32_mod, decode32-encode32}
use libpinyin.MemoryChunk.{MemoryChunk}
use libpinyin.MemoryChunk.Growth.{Holds, length_of_Holds}
use libpinyin.TokenArray.{
  Item, Layout, item_size, encode_item, decode_item, decode_items, items, offset_of,
}

-- Every payload takes the same room, and a valid one is read back.
pub record IsLayout {P : Type 0} (layout : Layout P) (Valid : P → Type 0) : Type 0 where
  pub length-encode : (p : P) → length (layout.encode p) ≡ layout.width
  pub decode-encode : (p : P) → Valid p → layout.decode (layout.encode p) ≡ p

module _ {P : Type 0} (layout : Layout P) where
  abbrev pub encode_items : List (Item P) → List ℕ
  encode_items [] = []
  encode_items (x ∷ xs) = encode_item layout x ++ encode_items xs

module _ {P : Type 0} (Valid : P → Type 0) where
  abbrev pub AllValid : List (Item P) → Type 0
  AllValid [] = Unit {0}
  AllValid (x ∷ xs) = ((x.token < u32_mod) × Valid x.payload) × AllValid xs

module _ {P : Type 0} (layout : Layout P) (Valid : P → Type 0) (header : ℕ) where
  -- The chunk holds a header and behind it the items.
  pub record Represents (c : MemoryChunk) (head : List ℕ) (xs : List (Item P)) : Type 0 where
    pub holds : Holds c (head ++ encode_items layout xs)
    pub length_header : length head ≡ header
    pub valid : AllValid Valid xs

module _ {P : Type 0} (layout : Layout P) {Valid : P → Type 0} (laws : IsLayout layout Valid) where
  pub length-encode_item : (x : Item P) → length (encode_item layout x) ≡ item_size layout
  unfolding encode_item
  length-encode_item x = omega (arith, laws.length-encode x.payload)

  pub length-encode_items :
      (xs : List (Item P)) → length (encode_items layout xs) ≡ item_size layout * length xs
  length-encode_items [] = omega arith
  length-encode_items (x ∷ xs) = omega (
    arith,
    length-append (encode_item layout x) (encode_items layout xs),
    length-encode_item x,
    length-encode_items xs,
  )

  pub encode_items-append :
      (xs ys : List (Item P))
      → encode_items layout (xs ++ ys) ≡ encode_items layout xs ++ encode_items layout ys
  encode_items-append [] ys = refl
  encode_items-append (x ∷ xs) ys =
      ap (◌++◌ (encode_item layout x)) (encode_items-append xs ys)
      ∙ sym (append_assoc (encode_item layout x) (encode_items layout xs) (encode_items layout ys))

  decode_item-encode_item :
      (x : Item P)
      → x.token < u32_mod
      → Valid x.payload
      → decode_item layout (encode_item layout x) ≡ x
  unfolding decode_item encode_item
  decode_item-encode_item x small valid =
      ap₂ (λ t p. record { token = t; payload = p }) (decode32-encode32 x.token small)
        (ap layout.decode (
            take_all layout.width (layout.encode x.payload)
              (omega (arith, laws.length-encode x.payload)))
          ∙ laws.decode-encode x.payload valid)

  decode_items-encode_items :
      (xs : List (Item P))
      → AllValid Valid xs
      → decode_items layout (length xs) (encode_items layout xs) ≡ xs
  unfolding decode_items
  decode_items-encode_items [] v = refl
  decode_items-encode_items (x ∷ xs) v =
      let e = length-encode_item x in
      ap₂ (λ a b. decode_item layout a ∷ decode_items layout (length xs) b)
        (take-append_le (item_size layout) (encode_item layout x) (encode_items layout xs)
            (omega arith)
          ∙ take_all (item_size layout) (encode_item layout x) (omega arith))
        (drop_past (item_size layout) 0 (encode_item layout x) (encode_items layout xs)
          (omega arith))
      ∙ ap₂ (λ a b. a ∷ b) (decode_item-encode_item x v.0.0 v.0.1)
          (decode_items-encode_items xs v.1)

  -- The pointers of the source see the items that the chunk represents.
  pub items-Represents :
      (header : ℕ) (c : MemoryChunk) (head : List ℕ) (xs : List (Item P))
      → Represents layout Valid header c head xs
      → items layout header c ≡ xs
  unfolding items
  items-Represents header c head xs r =
      ap₂ (decode_items layout) count (
        ap (drop header) r.holds.content
        ∙ drop_past header 0 head (encode_items layout xs) (omega (arith, r.length_header)))
      ∙ decode_items-encode_items xs r.valid
    where
      count : (c.data_end - header) / item_size layout ≡ length xs
      count = div-eq_of_eq-mul_right (omega arith) (
          omega (
            arith,
            length_of_Holds r.holds,
            length-append head (encode_items layout xs),
            length-encode_items xs,
            r.length_header,
          ))

  AllValid-append :
      (xs ys : List (Item P)) → AllValid Valid xs → AllValid Valid ys → AllValid Valid (xs ++ ys)
  AllValid-append [] ys v w = w
  AllValid-append (x ∷ xs) ys v w = (v.0, AllValid-append xs ys v.1 w)

  AllValid-left : (xs ys : List (Item P)) → AllValid Valid (xs ++ ys) → AllValid Valid xs
  AllValid-left [] ys v = tt
  AllValid-left (x ∷ xs) ys v = (v.0, AllValid-left xs ys v.1)

  pub AllValid-right : (xs ys : List (Item P)) → AllValid Valid (xs ++ ys) → AllValid Valid ys
  AllValid-right [] ys v = v
  AllValid-right (x ∷ xs) ys v = AllValid-right xs ys v.1

  -- A chunk seen as its header with the first items, and the bytes of the items from there on.
  module _ (header : ℕ) (head : List ℕ) (ys : List (Item P)) where
    abbrev pub before : List ℕ
    before = head ++ encode_items layout ys

    pub length_before : length head ≡ header → length before ≡ offset_of layout header (length ys)
    length_before e =
        omega (arith, length-append head (encode_items layout ys), length-encode_items ys)

    pub split_bytes :
        (c : MemoryChunk) (zs : List (Item P))
        → Represents layout Valid header c head (ys ++ zs)
        → Holds c (before ++ encode_items layout zs)
    split_bytes c zs r =
        subst (Holds c)
          (ap (◌++◌ head) (encode_items-append ys zs)
            ∙ sym (append_assoc head (encode_items layout ys) (encode_items layout zs)))
          r.holds

    pub joined :
        (c d : MemoryChunk) (zs ws : List (Item P))
        → Represents layout Valid header c head (ys ++ zs)
        → AllValid Valid ws
        → Holds d (before ++ encode_items layout ws)
        → Represents layout Valid header d head (ys ++ ws)
    joined c d zs ws r v h = record {
      holds =
          subst (Holds d)
            (append_assoc head (encode_items layout ys) (encode_items layout ws)
              ∙ ap (◌++◌ head) (sym (encode_items-append ys ws)))
            h;
      length_header = r.length_header;
      valid = AllValid-append ys ws (AllValid-left ys zs r.valid) v;
    }
