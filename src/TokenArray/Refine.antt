-- ===== src/TokenArray/Refine.antt =====
-- The loops of TokenArray.antt carry out, on the bytes of a chunk, the operations of Sorted.antt.
use libpinyin.Common.{
  ℕ, suc, ◌+◌, ◌<◌, ◌≡◌, refl, sym, ap, ap₂, subst, ◌∙◌, inl, inr, true, not, none, some, List, [],
  ◌∷◌, ◌++◌, arith, length, overwrite, drop_past, take_prefix, drop_prefix, overwrite_middle,
  length-append, append_assoc, ltb, ◌==◌, Bool-cases, ◌>>=◌, not_lt→ltb,
}
use libpinyin.Common.Words.{u32_mod, encode32}
use libpinyin.MemoryChunk.{MemoryChunk, insert_content, remove_content}
use libpinyin.MemoryChunk.Growth.{Holds, length_of_Holds}
use libpinyin.MemoryChunk.Contents.{overwrite-Holds, insert_content-Holds, remove_content-Holds}
use libpinyin.Stl.{IsAscending}
use libpinyin.TokenArray.{
  Item, Layout, token_of, item_size, offset_of, encode_item, insert_loop, remove_loop, set_loop,
  get_loop,
}
use libpinyin.TokenArray.Sorted.{
  insert_sorted, erase, update, is_some, lookup, lookup_above, erase_absent, update_absent,
}
use libpinyin.TokenArray.Bytes.{
  IsLayout, Represents, encode_items, length-encode_item, split_bytes, before, length_before,
  joined, AllValid-right,
}

module _ {P : Type 0} (layout : Layout P) {Valid : P → Type 0} (laws : IsLayout layout Valid)
    (header : ℕ) (head : List ℕ) where
  abbrev pub Rep : MemoryChunk → List (Item P) → Type 0
  Rep c xs = Represents layout Valid header c head xs

  pub insert_at :
      (c : MemoryChunk) (i : ℕ) (ys zs : List (Item P)) (item : Item P)
      → i ≡ length ys
      → Rep c (ys ++ zs)
      → (item.token < u32_mod) × Valid item.payload
      → (d : MemoryChunk) × (insert_content c (offset_of layout header i) (encode_item layout item)
          ≡ some d)
        × Rep d (ys ++ (item ∷ zs))
  insert_at c i ys zs item e r v =
      let front : List ℕ = before layout laws header head ys in
      let rest : List ℕ = encode_items layout zs in
      let off : ℕ = offset_of layout header i in
      let at : length front ≡ off =
        length_before layout laws header head ys r.length_header
        ∙ ap (offset_of layout header) (sym e) in
      let (d, done, h) =
        insert_content-Holds c off (encode_item layout item) (front ++ rest)
          (split_bytes layout laws header head ys c zs r)
          (omega (arith, at, length-append front rest)) in
      (
        d,
        done,
        joined layout laws header head ys c d zs (item ∷ zs) r
            (v, AllValid-right layout laws ys zs r.valid)
            (subst (Holds d)
              (ap₂ (λ a b. a ++ (encode_item layout item ++ b)) (take_prefix off front rest at)
                (drop_prefix off front rest at))
              h),
      )

  pub remove_at :
      (c : MemoryChunk) (i : ℕ) (ys zs : List (Item P)) (x : Item P)
      → i ≡ length ys
      → Rep c (ys ++ (x ∷ zs))
      → (d : MemoryChunk) × (remove_content c (offset_of layout header i) (item_size layout)
          ≡ some d)
        × Rep d (ys ++ zs)
  remove_at c i ys zs x e r =
      let front : List ℕ = before layout laws header head ys in
      let bytes : List ℕ = encode_item layout x in
      let rest : List ℕ = encode_items layout zs in
      let off : ℕ = offset_of layout header i in
      let at : length front ≡ off =
        length_before layout laws header head ys r.length_header
        ∙ ap (offset_of layout header) (sym e) in
      let (d, done, h) =
        remove_content-Holds c off (item_size layout) (front ++ (bytes ++ rest))
          (split_bytes layout laws header head ys c (x ∷ zs) r)
          (omega (
            arith,
            at,
            length-append front (bytes ++ rest),
            length-append bytes rest,
            length-encode_item layout laws x,
          )) in
      (
        d,
        done,
        joined layout laws header head ys c d (x ∷ zs) zs r
            (AllValid-right layout laws ys (x ∷ zs) r.valid).1
            (subst (Holds d)
              (ap₂ (λ a b. a ++ b) (take_prefix off front (bytes ++ rest) at)
                (drop_past (off + item_size layout) (item_size layout) front (bytes ++ rest)
                    (omega (arith, at))
                  ∙ drop_prefix (item_size layout) bytes rest (length-encode_item layout laws x)))
              h),
      )

  -- The loop goes on behind the item that it has passed.
  pub passed :
      (c : MemoryChunk) (ys zs : List (Item P)) (x : Item P)
      → Rep c (ys ++ (x ∷ zs))
      → Rep c ((ys ++ (x ∷ [])) ++ zs)
  passed c ys zs x = subst (Rep c) (sym (append_assoc ys (x ∷ []) zs))

  pub back :
      (c : MemoryChunk) (ys zs : List (Item P)) (x : Item P)
      → Rep c ((ys ++ (x ∷ [])) ++ zs)
      → Rep c (ys ++ (x ∷ zs))
  back c ys zs x = subst (Rep c) (append_assoc ys (x ∷ []) zs)

  -- The end of the chunk is where the next item would stand.
  end_of_array :
      (c : MemoryChunk) (i : ℕ) (ys : List (Item P))
      → i ≡ length ys
      → Rep c (ys ++ [])
      → c.data_end ≡ offset_of layout header i
  end_of_array c i ys e r = omega (
    arith,
    length_of_Holds (split_bytes layout laws header head ys c [] r),
    length_before layout laws header head ys r.length_header,
    length-append (before layout laws header head ys) [],
    ap (offset_of layout header) e,
  )

  pub insert_loop-Represents :
      (c : MemoryChunk) (i : ℕ) (ys zs : List (Item P)) (item : Item P)
      → i ≡ length ys
      → Rep c (ys ++ zs)
      → (item.token < u32_mod) × Valid item.payload
      → (d : MemoryChunk) × (insert_loop layout header c i zs item
          ≡ some (d, not (is_some (get_loop zs item.token))))
        × Rep d (ys ++ insert_sorted item zs)
  unfolding insert_loop insert_sorted get_loop
  insert_loop-Represents c i ys [] item e r v =
      let (d, done, s) = insert_at c i ys [] item e r v in
      (
        d,
        ap (λ k. insert_content c k (encode_item layout item) >>= λ d. some (d, true))
              (end_of_array c i ys e r)
            ∙ ap (λ o. o >>= λ d. some (d, true)) done,
        s,
      )
  insert_loop-Represents c i ys (x ∷ zs) item e r v = elim (Bool-cases (ltb item.token x.token)) [
    | inl less ↦
        let (d, done, s) = insert_at c i ys (x ∷ zs) item e r v in
        rw (less, insert_loop, insert_sorted, get_loop) (d, rw done refl, s)
    | inr more ↦ elim (Bool-cases (x.token == item.token)) [
      | inl same ↦ rw (more, same, insert_loop, insert_sorted, get_loop) (c, refl, r)
      | inr other ↦
          let (d, done, s) =
            insert_loop-Represents c (suc i) (ys ++ (x ∷ [])) zs item
              (omega (arith, length-append ys (x ∷ []))) (passed c ys zs x r) v in
          rw (more, other, insert_loop, insert_sorted, get_loop)
            (d, done, back d ys (insert_sorted item zs) x s)
    ]
  ]

  set_at :
      (c : MemoryChunk) (i : ℕ) (ys zs : List (Item P)) (x : Item P) (p : P)
      → i ≡ length ys
      → Rep c (ys ++ (x ∷ zs))
      → Valid p
      → Rep
          (record c {
            buffer = overwrite (offset_of layout header i + 4) (layout.encode p) c.buffer;
          })
          (ys ++ (record x { payload = p } ∷ zs))
  unfolding encode_item
  set_at c i ys zs x p e r v =
      let front : List ℕ = before layout laws header head ys in
      let old : List ℕ = layout.encode x.payload in
      let new : List ℕ = layout.encode p in
      let rest : List ℕ = encode_items layout zs in
      let off : ℕ = offset_of layout header i + 4 in
      let at : length (front ++ encode32 x.token) ≡ off = omega (
        arith,
        length_before layout laws header head ys r.length_header,
        ap (offset_of layout header) e,
        length-append front (encode32 x.token),
      ) in
      let same : length old ≡ length new =
        omega (arith, laws.length-encode x.payload, laws.length-encode p) in
      let regroup = λ (b : List ℕ). append_assoc front (encode32 x.token) (b ++ rest) in
      let h =
        overwrite-Holds c off new (front ++ ((encode32 x.token ++ old) ++ rest))
          (split_bytes layout laws header head ys c (x ∷ zs) r)
          (omega (
            arith,
            at,
            same,
            length-append front (encode32 x.token),
            length-append front ((encode32 x.token ++ old) ++ rest),
            length-append old rest,
          )) in
      let valid = AllValid-right layout laws ys (x ∷ zs) r.valid in
      joined layout laws header head ys c _ (x ∷ zs) (record x { payload = p } ∷ zs) r
        ((valid.0.0, v), valid.1)
        (subst (Holds _)
          (ap (overwrite off new) (sym (regroup old))
            ∙ overwrite_middle off (front ++ encode32 x.token) old new rest at same
            ∙ regroup new)
          h)

  -- On items in the order of their tokens.
  pub remove_loop-Represents :
      (c : MemoryChunk) (i : ℕ) (ys zs : List (Item P)) (t : ℕ)
      → i ≡ length ys
      → IsAscending token_of zs
      → Rep c (ys ++ zs)
      → (d : MemoryChunk) × (remove_loop layout header c i zs t ≡ some (d, lookup t zs))
        × Rep d (ys ++ erase t zs)
  unfolding remove_loop erase lookup
  remove_loop-Represents c i ys [] t e asc r = (c, refl, r)
  remove_loop-Represents c i ys (x ∷ zs) t e asc r = elim (Bool-cases (x.token == t)) [
    | inl same ↦
        let (d, done, s) = remove_at c i ys zs x e r in
        rw (not_lt→ltb t x.token (ground arith), same, remove_loop, lookup, erase)
          (d, rw done refl, s)
    | inr other ↦ elim (Bool-cases (ltb t x.token)) [
      | inl less ↦
          let gone : lookup t zs ≡ none = lookup_above x.token t zs asc.0 (ground arith) in
          rw (other, less, gone, erase_absent t zs gone, remove_loop, lookup, erase) (c, refl, r)
      | inr more ↦
          let (d, done, s) =
            remove_loop-Represents c (suc i) (ys ++ (x ∷ [])) zs t
              (omega (arith, length-append ys (x ∷ []))) asc.1 (passed c ys zs x r) in
          rw (other, more, remove_loop, lookup, erase) (d, done, back d ys (erase t zs) x s)
    ]
  ]

  pub set_loop-Represents :
      (c : MemoryChunk) (i : ℕ) (ys zs : List (Item P)) (t : ℕ) (p : P)
      → i ≡ length ys
      → IsAscending token_of zs
      → Rep c (ys ++ zs)
      → Valid p
      → (d : MemoryChunk) × (set_loop layout header c i zs t p ≡ (d, is_some (lookup t zs)))
        × Rep d (ys ++ update t p zs)
  unfolding set_loop update lookup
  set_loop-Represents c i ys [] t p e asc r v = (c, refl, r)
  set_loop-Represents c i ys (x ∷ zs) t p e asc r v = elim (Bool-cases (x.token == t)) [
    | inl same ↦
        rw (not_lt→ltb t x.token (ground arith), same, set_loop, lookup, update)
          (_, refl, set_at c i ys zs x p e r v)
    | inr other ↦ elim (Bool-cases (ltb t x.token)) [
      | inl less ↦
          let gone : lookup t zs ≡ none = lookup_above x.token t zs asc.0 (ground arith) in
          rw (other, less, gone, update_absent t p zs gone, set_loop, lookup, update) (c, refl, r)
      | inr more ↦
          let (d, done, s) =
            set_loop-Represents c (suc i) (ys ++ (x ∷ [])) zs t p
              (omega (arith, length-append ys (x ∷ []))) asc.1 (passed c ys zs x r) v in
          rw (other, more, set_loop, lookup, update) (d, done, back d ys (update t p zs) x s)
    ]
  ]
