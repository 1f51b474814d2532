-- ===== src/FlexibleSingleGram/Refine.antt =====
-- src/storage/flexible_single_gram.h as a map from tokens to items, for every type of header and
-- item.
use libpinyin.Common.{
  ℕ, ◌<◌, ◌≡◌, sym, ap, subst, ◌∙◌, not, none, some, List, ◌+◌, ◌++◌, arith, length, take, ◌==◌,
  if◌then◌else◌, take_prefix, drop_prefix, length-append, take-take,
}
use libpinyin.Common.Words.{u32_mod}
use libpinyin.MemoryChunk.{MemoryChunk}
use libpinyin.MemoryChunk.Growth.{Holds, length_of_Holds}
use libpinyin.MemoryChunk.Contents.{overwrite-Holds}
use libpinyin.Stl.{IsAscending, LowerBound}
use libpinyin.TokenArray.{Item, Layout, token_of}
use libpinyin.TokenArray.Sorted.{
  lookup, insert_sorted, erase, update, is_some, insert_sorted-IsAscending, lookup-insert_sorted,
  erase-IsAscending, lookup-erase, update-IsAscending, lookup-update,
}
use libpinyin.TokenArray.Bytes.{IsLayout, Represents, encode_items, items-Represents}
use libpinyin.TokenArray.Located.{
  insert_from_bound, remove_from_bound, set_from_bound, get_loop-from_bound, search_from_bound,
  in_range,
}
use libpinyin.FlexibleSingleGram.{
  get_array_header, set_array_header, retrieve_all, search, insert_array_item, remove_array_item,
  get_array_item, set_array_item,
}

read_header :
    (n : ℕ) (c : MemoryChunk) (header rest : List ℕ)
    → Holds c (header ++ rest)
    → length header ≡ n
    → take n c.buffer ≡ header
read_header n c header rest h e =
    sym (
      take-take n c.data_end c.buffer (omega (arith, length_of_Holds h, length-append header rest)))
    ∙ ap (take n) h.content
    ∙ take_prefix n header rest e

module _ {P : Type 0} (layout : Layout P) {Valid : P → Type 0} (laws : IsLayout layout Valid)
    (header_size : ℕ) (lb : LowerBound {A = Item P} token_of) where
  -- The chunk holds a header and items whose tokens rise.
  abbrev pub IsFlexibleGram : MemoryChunk → List ℕ → List (Item P) → Type 0
  IsFlexibleGram c header xs =
      Represents layout Valid header_size c header xs × IsAscending token_of xs

  get_array_item-lookup :
      (c : MemoryChunk) (header : List ℕ) (xs : List (Item P))
      → IsFlexibleGram c header xs
      → (t : ℕ) → get_array_item layout header_size lb c t ≡ lookup t xs
  unfolding get_array_item
  get_array_item-lookup c header xs gram t =
      rw (items-Represents layout laws header_size c header xs gram.0)
        (get_loop-from_bound lb xs gram.1 t)

module _ {P : Type 0} (layout : Layout P) {Valid : P → Type 0} (laws : IsLayout layout Valid)
    (header_size : ℕ) (lb : LowerBound {A = Item P} token_of) (c : MemoryChunk) (header : List ℕ)
    (xs : List (Item P)) (gram : IsFlexibleGram layout laws header_size lb c header xs) where
  seen : (t : ℕ) → get_array_item layout header_size lb c t ≡ lookup t xs
  seen = get_array_item-lookup layout laws header_size lb c header xs gram

  -- insert_array_item succeeds exactly where the token was not there, and then the token has the
  -- item; otherwise it keeps its own. All other items and the header stay.
  pub insert_array_item-get_array_item :
      (t : ℕ) (item : P)
      → t < u32_mod
      → Valid item
      → (d : MemoryChunk) × (ys : List (Item P)) × (insert_array_item layout header_size lb c t item
          ≡ some (d, not (is_some (get_array_item layout header_size lb c t))))
        × IsFlexibleGram layout laws header_size lb d header ys
        × ((u : ℕ)
            → get_array_item layout header_size lb d u ≡ (
                let old = get_array_item layout header_size lb c u in
                if t == u then if is_some old then old else some item else old))
  unfolding insert_array_item
  insert_array_item-get_array_item t item p v =
      let new : Item P = record { token = t; payload = item } in
      let (d, e, s) =
        insert_from_bound lb layout laws header_size header c xs gram.1 gram.0 new (p, v) in
      let gram' : IsFlexibleGram layout laws header_size lb d header (insert_sorted new xs) =
        (s, insert_sorted-IsAscending new xs gram.1) in
      (
        d,
        insert_sorted new xs,
        rw (items-Represents layout laws header_size c header xs gram.0, seen t) e,
        gram',
        λ u.
            get_array_item-lookup layout laws header_size lb d header (insert_sorted new xs) gram' u
            ∙ lookup-insert_sorted new u xs gram.1
            ∙ ap (λ o. if t == u then if is_some o then o else some item else o) (sym (seen u)),
      )

  -- remove_array_item gives the item that get_array_item finds. The token is gone afterwards; all
  -- other items and the header stay.
  pub remove_array_item-get_array_item :
      (t : ℕ)
      → (d : MemoryChunk) × (ys : List (Item P)) × (remove_array_item layout header_size lb c t
          ≡ some (d, get_array_item layout header_size lb c t))
        × IsFlexibleGram layout laws header_size lb d header ys
        × ((u : ℕ)
            → get_array_item layout header_size lb d u
              ≡ (if t == u then none else get_array_item layout header_size lb c u))
  unfolding remove_array_item
  remove_array_item-get_array_item t =
      let (d, e, s) = remove_from_bound lb layout laws header_size header c xs gram.1 gram.0 t in
      let gram' : IsFlexibleGram layout laws header_size lb d header (erase t xs) =
        (s, erase-IsAscending t xs gram.1) in
      (
        d,
        erase t xs,
        rw (items-Represents layout laws header_size c header xs gram.0, seen t) e,
        gram',
        λ u.
            get_array_item-lookup layout laws header_size lb d header (erase t xs) gram' u
            ∙ lookup-erase t u xs gram.1
            ∙ ap (λ o. if t == u then none else o) (sym (seen u)),
      )

  -- set_array_item succeeds exactly where the token is there, which then has the item; all other
  -- items and the header stay.
  pub set_array_item-get_array_item :
      (t : ℕ) (item : P)
      → Valid item
      → (d : MemoryChunk) × (ys : List (Item P)) × (set_array_item layout header_size lb c t item
          ≡ (d, is_some (get_array_item layout header_size lb c t)))
        × IsFlexibleGram layout laws header_size lb d header ys
        × ((u : ℕ)
            → get_array_item layout header_size lb d u ≡ (
                let old = get_array_item layout header_size lb c u in
                if t == u then if is_some old then some item else none else old))
  unfolding set_array_item
  set_array_item-get_array_item t item v =
      let (d, e, s) =
        set_from_bound lb layout laws header_size header c xs gram.1 gram.0 t item v in
      let gram' : IsFlexibleGram layout laws header_size lb d header (update t item xs) =
        (s, update-IsAscending t item xs gram.1) in
      (
        d,
        update t item xs,
        rw (items-Represents layout laws header_size c header xs gram.0, seen t) e,
        gram',
        λ u.
            get_array_item-lookup layout laws header_size lb d header (update t item xs) gram' u
            ∙ lookup-update t u item xs
            ∙ ap (λ o. if t == u then if is_some o then some item else none else o) (sym (seen u)),
      )

  -- retrieve_all gives all items and search those with a token in the range, in their order.
  pub search-retrieve_all :
      (range_begin range_end : ℕ)
      → search layout header_size lb c range_begin range_end
        ≡ in_range range_begin range_end (retrieve_all layout header_size c)
  unfolding search retrieve_all
  search-retrieve_all range_begin range_end =
      rw (items-Represents layout laws header_size c header xs gram.0)
        (search_from_bound lb range_begin range_end xs gram.1)

  -- The header is read back, and written without a change to any item.
  pub set_array_header-get_array_header :
      (new : List ℕ)
      → length new ≡ header_size
      → let d = set_array_header header_size c new in
        (get_array_header header_size c ≡ header)
        × (get_array_header header_size d ≡ new)
        × ((u : ℕ)
            → get_array_item layout header_size lb d u ≡ get_array_item layout header_size lb c u)
  unfolding set_array_header get_array_header
  set_array_header-get_array_header new e =
      let body : List ℕ = encode_items layout xs in
      let h =
        overwrite-Holds c 0 new (header ++ body) gram.0.holds
          (omega (arith, length-append header body, gram.0.length_header)) in
      let d : MemoryChunk = set_array_header header_size c new in
      let h' : Holds d (new ++ body) =
        subst (Holds d)
          (ap (◌++◌ new)
            (drop_prefix (0 + length new) header body (omega (arith, gram.0.length_header))))
          h in
      let gram' : IsFlexibleGram layout laws header_size lb d new xs =
        (record { holds = h'; length_header = e; valid = gram.0.valid }, gram.1) in
      (
        read_header header_size c header body gram.0.holds gram.0.length_header,
        read_header header_size d new body h' e,
        λ u. get_array_item-lookup layout laws header_size lb d new xs gram' u ∙ sym (seen u),
      )
