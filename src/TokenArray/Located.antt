-- ===== src/TokenArray/Located.antt =====
-- The operations of an array sorted by token, with std::lower_bound to find where to start.
use libpinyin.Common.{
  ℕ, suc, ◌≤◌, ◌<◌, ◌≡◌, refl, sym, ap, subst, ◌∙◌, not, some, List, [], ◌∷◌, ◌++◌, arith, length,
  take, drop, get_elem?, length-take, take-append-drop, leb, ltb, if◌then◌else◌, zero,
}
use libpinyin.Common.Words.{u32_mod}
use libpinyin.MemoryChunk.{MemoryChunk}
use libpinyin.Stl.{AllBelow, AllAbove, IsAscending, LowerBound}
use libpinyin.TokenArray.{
  Item, Layout, token_of, insert_loop, remove_loop, set_loop, get_loop, search_loop,
}
use libpinyin.TokenArray.Sorted.{
  insert_sorted, erase, update, lookup, is_some, get_loop-lookup, drop-IsAscending, lookup-drop,
  erase-drop, update-drop, insert_sorted-drop,
}
use libpinyin.TokenArray.Bytes.{IsLayout, Represents}
use libpinyin.TokenArray.Refine.{
  insert_loop-Represents, remove_loop-Represents, set_loop-Represents,
}

module _ {P : Type 0} (lb : LowerBound {A = Item P} token_of) where
  -- The items from the lower bound of a token on.
  abbrev pub from_bound : List (Item P) → ℕ → List (Item P)
  from_bound xs t = drop (lb.index xs t) xs

  module _ (xs : List (Item P)) (asc : IsAscending token_of xs) (t : ℕ) where
    length_before_bound : lb.index xs t ≡ length (take (lb.index xs t) xs)
    length_before_bound = omega (arith, length-take (lb.index xs t) xs, lb.index_le xs t asc)

    pub get_loop-from_bound : get_loop (from_bound xs t) t ≡ lookup t xs
    get_loop-from_bound =
        get_loop-lookup t _ (drop-IsAscending (lb.index xs t) xs asc)
        ∙ sym (lookup-drop t (lb.index xs t) xs (lb.before xs t asc))

  module _ (layout : Layout P) {Valid : P → Type 0} (laws : IsLayout layout Valid) (header : ℕ)
      (head : List ℕ) (c : MemoryChunk) (xs : List (Item P)) (asc : IsAscending token_of xs)
      (r : Represents layout Valid header c head xs) where
    from_start :
        (t : ℕ) → Represents layout Valid header c head (take (lb.index xs t) xs ++ from_bound xs t)
    from_start t =
        subst (Represents layout Valid header c head) (sym (take-append-drop (lb.index xs t) xs)) r

    pub insert_from_bound :
        (item : Item P)
        → (item.token < u32_mod) × Valid item.payload
        → (d : MemoryChunk) × (insert_loop layout header c
              (lb.index xs item.token)
              (from_bound xs item.token)
              item
            ≡ some (d, not (is_some (lookup item.token xs))))
          × Represents layout Valid header d head (insert_sorted item xs)
    insert_from_bound item v =
        let t : ℕ = item.token in
        let (d, done, s) =
          insert_loop-Represents layout laws header head c (lb.index xs t) (take (lb.index xs t) xs)
            (from_bound xs t) item (length_before_bound xs asc t) (from_start t) v in
        (
          d,
          done ∙ ap (λ o. some (d, not (is_some o))) (get_loop-from_bound xs asc t),
          subst (Represents layout Valid header d head)
              (sym (insert_sorted-drop item (lb.index xs t) xs (lb.before xs t asc))) s,
        )

    pub remove_from_bound :
        (t : ℕ)
        → (d : MemoryChunk) × (remove_loop layout header c (lb.index xs t) (from_bound xs t) t
            ≡ some (d, lookup t xs))
          × Represents layout Valid header d head (erase t xs)
    remove_from_bound t =
        let (d, done, s) =
          remove_loop-Represents layout laws header head c (lb.index xs t) (take (lb.index xs t) xs)
            (from_bound xs t) t (length_before_bound xs asc t)
            (drop-IsAscending (lb.index xs t) xs asc) (from_start t) in
        (
          d,
          done
              ∙ ap (λ o. some (d, o)) (sym (lookup-drop t (lb.index xs t) xs (lb.before xs t asc))),
          subst (Represents layout Valid header d head)
              (sym (erase-drop t (lb.index xs t) xs (lb.before xs t asc))) s,
        )

    pub set_from_bound :
        (t : ℕ) (p : P)
        → Valid p
        → (d : MemoryChunk) × (set_loop layout header c (lb.index xs t) (from_bound xs t) t p
            ≡ (d, is_some (lookup t xs)))
          × Represents layout Valid header d head (update t p xs)
    set_from_bound t p v =
        let (d, done, s) =
          set_loop-Represents layout laws header head c (lb.index xs t) (take (lb.index xs t) xs)
            (from_bound xs t) t p (length_before_bound xs asc t)
            (drop-IsAscending (lb.index xs t) xs asc) (from_start t) v in
        (
          d,
          done
              ∙ ap (λ o. (d, is_some o))
                  (sym (lookup-drop t (lb.index xs t) xs (lb.before xs t asc))),
          subst (Represents layout Valid header d head)
              (sym (update-drop t p (lb.index xs t) xs (lb.before xs t asc))) s,
        )

-- The items whose token lies in a range.
module _ {P : Type 0} where
  abbrev pub in_range : ℕ → ℕ → List (Item P) → List (Item P)
  in_range lo hi [] = []
  in_range lo hi (x ∷ xs) =
      if ltb x.token lo
      then in_range lo hi xs
      else if leb hi x.token
      then in_range lo hi xs
      else x ∷ in_range lo hi xs

  in_range_above :
      (n lo hi : ℕ) (xs : List (Item P)) → AllAbove token_of n xs → hi ≤ n → in_range lo hi xs ≡ []
  in_range_above n lo hi [] h k = refl
  in_range_above n lo hi (x ∷ xs) h k = ground (arith, in_range_above n lo hi xs h.1)

  in_range-drop :
      (lo hi i : ℕ) (xs : List (Item P))
      → AllBelow token_of lo (take i xs)
      → in_range lo hi xs ≡ in_range lo hi (drop i xs)
  in_range-drop lo hi zero xs h = refl
  in_range-drop lo hi (suc i) [] h = refl
  in_range-drop lo hi (suc i) (x ∷ xs) h = ground (arith, in_range-drop lo hi i xs h.1)

  search_loop_above :
      (n lo hi : ℕ) (xs : List (Item P))
      → lo ≤ n
      → AllAbove token_of n xs
      → IsAscending token_of xs
      → search_loop xs hi ≡ in_range lo hi xs
  unfolding search_loop
  search_loop_above n lo hi [] h k asc = refl
  search_loop_above n lo hi (x ∷ xs) h k asc = ground (
    arith,
    search_loop_above x.token lo hi xs (omega arith) asc.0 asc.1,
    in_range_above x.token lo hi xs asc.0,
  )

  -- Nothing in the rest of a sorted array lies below its first entry.
  search_loop-in_range :
      (lo hi : ℕ) (xs : List (Item P))
      → IsAscending token_of xs
      → ((x : Item P) → get_elem? xs 0 ≡ some x → lo ≤ x.token)
      → search_loop xs hi ≡ in_range lo hi xs
  unfolding search_loop
  search_loop-in_range lo hi [] asc first = refl
  search_loop-in_range lo hi (x ∷ xs) asc first =
      let low : lo ≤ x.token = first x refl in
      ground (
        arith,
        search_loop_above x.token lo hi xs low asc.0 asc.1,
        in_range_above x.token lo hi xs asc.0,
      )

  get_elem?-drop : (i : ℕ) (xs : List (Item P)) → get_elem? (drop i xs) 0 ≡ get_elem? xs i
  get_elem?-drop zero [] = refl
  get_elem?-drop zero (x ∷ xs) = refl
  get_elem?-drop (suc i) [] = refl
  get_elem?-drop (suc i) (x ∷ xs) = get_elem?-drop i xs

  pub search_from_bound :
      (lb : LowerBound {A = Item P} token_of) (lo hi : ℕ) (xs : List (Item P))
      → IsAscending token_of xs
      → search_loop (from_bound lb xs lo) hi ≡ in_range lo hi xs
  search_from_bound lb lo hi xs asc =
      search_loop-in_range lo hi _ (drop-IsAscending (lb.index xs lo) xs asc)
        (λ x e. lb.not_before xs lo x asc (sym (get_elem?-drop (lb.index xs lo) xs) ∙ e))
      ∙ sym (in_range-drop lo hi (lb.index xs lo) xs (lb.before xs lo asc))
