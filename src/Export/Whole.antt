-- ===== src/Export/Whole.antt =====
-- Against a server that serves the table, the export returns every row, and its loop ends.
use adtler.Prelude.{
  ℕ, zero, suc, ◌+◌, ◌≤◌, ◌<◌, ◌≡◌, ◌≢◌, refl, sym, ap, ◌∙◌, subst, append_assoc, Bool, true, false,
  List, [], ◌∷◌, ◌++◌, none, some, arith, ltb, ◌==◌, ==_iff, All, filter, take, drop, last?, length,
  length-take, length-drop, take-append-drop, Text, Bool-cases, inl, inr, ◌⊎◌,
}
use adtler.Sql.{validate_identifier, validate_all, filter_non_mandt_keys}
use adtler.Sql.Where.{is_after}
use adtler.Export.{
  QueryColumn, Answer, answered, TableExportResult, Outcome, ok, mark_keys, page_columns,
  QueryResult, extract_key_values, values_equal, after_page, fetch, export_pages, export_table,
  finish, continue_after,
}
use adtler.Export.Server.{
  AnswersBehind, value_of, keys_of, comes_after, IsSorted, Serves, comes_after_irrefl,
  filter-comes_after,
}
use adtler.Export.Rows.{
  All-last?, All-take, All-left, All-right, last?-append, last?-some, length-map, All-comes_after,
}
use adtler.Export.Queries.{values_equal-eq, extract-mark_keys, fetch_first, fetch_after}

ltb-false-le : (a b : ℕ) → ltb a b ≡ false → b ≤ a
ltb-false-le a b e = ground arith

module _ {E : Type 0} (run_query : ℕ → Text → ℕ → Answer E) (table : Text) (keys : List Text)
    (key_types : Text → Text) (page_size : ℕ) (lt : Text → Text → Bool) (cs : List QueryColumn)
    (rows : List (List Text)) (serves : Serves run_query table keys key_types page_size lt cs rows)
    (valid_table : validate_identifier table ≡ none) (valid_keys : validate_all keys ≡ none)
    (paginated : filter_non_mandt_keys keys ≢ []) (some_rows : 0 < page_size) where
  abbrev pk : List Text
  pk = filter_non_mandt_keys keys

  -- The loop's state when it has read `done` and `rest` is left.
  record At (pages : ℕ) (after : List Text) (columns : List QueryColumn)
      (done rest : List (List Text)) : Type 0 where
    parts : rows ≡ done ++ rest
    place :
        ((pages ≡ 0) × (done ≡ []) × (after ≡ []))
        ⊎ ((0 < pages)
            × (columns ≡ mark_keys keys cs)
            × (l : List Text) × (last? done ≡ some l)
            × (after ≡ keys_of cs pk l))

  fetch_values :
      (i : ℕ) (values : List Text)
      → length pk ≡ length values
      → AnswersBehind run_query table keys key_types page_size lt cs rows i values
      → fetch run_query table keys key_types page_size i values
        ≡ answered (record {
          columns = cs;
          rows = take page_size (filter (λ row. is_after lt (value_of cs row) pk values) rows);
        })
  fetch_values i [] e answer = absurd (paginated (nil_of pk e))
    where
      nil_of : (ks : List Text) → length ks ≡ length {A = Text} [] → ks ≡ []
      nil_of [] e = refl
      nil_of (k ∷ ks) e = absurd (omega arith)
  fetch_values i (v ∷ vs) e answer =
      fetch_after run_query table keys key_types page_size lt cs rows serves valid_table valid_keys
        paginated i v vs e answer

  fetch_rest :
      (pages : ℕ) (after : List Text) (columns : List QueryColumn) (done rest : List (List Text))
      → At pages after columns done rest
      → fetch run_query table keys key_types page_size pages after
        ≡ answered (record { columns = cs; rows = take page_size rest })
  fetch_rest pages after columns done rest at = elim at.place [
    | inl (p, d, a) ↦
        let all : rows ≡ rest = at.parts ∙ ap (λ x. x ++ rest) d in
        rw a (
          fetch_first run_query table keys key_types page_size lt cs rows serves valid_table
            valid_keys paginated pages
          ∙ ap (λ x. answered (record { columns = cs; rows = take page_size x })) all)
    | inr (p, c, l, is, a) ↦ rw a (
        fetch_values pages (keys_of cs pk l) (sym (length-map (value_of cs l) pk)) (
          All-last? _ done l (All-left _ done rest (subst (All _) at.parts serves.answers_where)) is
            pages)
        ∙ ap (λ x. answered (record { columns = cs; rows = take page_size x }))
            (ap (filter (λ row. comes_after lt cs pk row l)) at.parts
              ∙ filter-comes_after lt serves.asymmetric cs pk done rest l
                  (subst (IsSorted lt cs pk) at.parts serves.sorted) is))
  ]

  marked :
      (pages : ℕ) (after : List Text) (columns : List QueryColumn) (done rest : List (List Text))
      → At pages after columns done rest
      → page_columns keys pages cs columns ≡ mark_keys keys cs
  unfolding page_columns
  marked pages after columns done rest at = elim at.place [
    | inl (p, d, a) ↦ rw p
    | inr (p, c, l, is, a) ↦ ground arith
  ]

  -- The next page's last row has other keys than the last row read.
  moved :
      (pages : ℕ) (after : List Text) (columns : List QueryColumn) (done rest : List (List Text))
      (l' : List Text)
      → At pages after columns done rest
      → last? (take page_size rest) ≡ some l'
      → values_equal (keys_of cs pk l') after ≡ false
  moved pages after columns done rest l' at is' =
      elim (Bool-cases (values_equal (keys_of cs pk l') after)) [
        | inr e ↦ e
        | inl e ↦
            let same = values_equal-eq (keys_of cs pk l') after e in
            elim at.place [
              | inl (p, d, a) ↦ absurd (paginated (nil_of pk (same ∙ a)))
              | inr (p, c, l, is, a) ↦
                  let later =
                    All-comes_after lt cs pk done rest l
                      (subst (IsSorted lt cs pk) at.parts serves.sorted) is in
                  let after_l : comes_after lt cs pk l' l ≡ true =
                    All-last? _ (take page_size rest) l' (All-take _ page_size rest later) is' in
                  let self : comes_after lt cs pk l' l ≡ false =
                    rw (← (same ∙ a)) (comes_after_irrefl lt serves.asymmetric cs pk l') in
                  cc
            ]
      ]
    where
      nil_of : (ks : List Text) → keys_of cs ks l' ≡ [] → ks ≡ []
      nil_of [] e = refl
      nil_of (k ∷ ks) e = cc

  -- What the loop does with a page that is not the last.
  goes_on :
      (pages : ℕ) (after : List Text) (columns : List QueryColumn) (done rest : List (List Text))
      (l' : List Text)
      → At pages after columns done rest
      → page_size ≤ length rest
      → last? (take page_size rest) ≡ some l'
      → after_page {E = E} page_size (pages + 1) pk (mark_keys keys cs) after (take page_size rest)
        ≡ continue_after (keys_of cs pk l')
  unfolding after_page
  goes_on pages after columns done rest l' at full is' =
      let has : extract_key_values cs pk l' ≡ some (keys_of cs pk l') =
        All-last? _ (take page_size rest) l'
          (All-take _ page_size rest
            (All-right _ done rest (subst (All _) at.parts serves.has_keys)))
          is' in
      let found = extract-mark_keys keys pk cs l' ∙ has in
      let not_short : ltb (length (take page_size rest)) page_size ≡ false =
        ground (arith, length-take page_size rest) in
      rw (
        not_short,
        some_keys,
        is',
        found,
        moved pages after columns done rest l' at is',
        after_page,
      )
    where
      nil_of : (ks : List Text) → length ks ≡ 0 → ks ≡ []
      nil_of [] e = refl
      nil_of (k ∷ ks) e = absurd (omega arith)

      some_keys : (length pk == 0) ≡ false
      some_keys = elim (Bool-cases (length pk == 0)) [
        | inl e ↦ absurd (paginated (nil_of pk ((==_iff _ _).0 e)))
        | inr e ↦ e
      ]

  stops :
      (pages : ℕ) (after : List Text) (rest : List (List Text))
      → length rest < page_size
      → after_page {E = E} page_size (pages + 1) pk (mark_keys keys cs) after (take page_size rest)
        ≡ finish
  unfolding after_page
  stops pages after rest short =
      let is_short : ltb (length (take page_size rest)) page_size ≡ true =
        ground (arith, length-take page_size rest) in
      rw is_short

  -- What the export of the remaining rows returns.
  abbrev Succeeds : Outcome E → Type 0
  Succeeds outcome =
      (result : TableExportResult) × (outcome ≡ ok result)
      × (result.rows ≡ rows)
      × (result.columns ≡ mark_keys keys cs)
      × (result.total_rows ≡ length rows)

  take_all : (n : ℕ) (xs : List (List Text)) → length xs ≤ n → take n xs ≡ xs
  take_all zero [] h = refl
  take_all zero (x ∷ xs) h = absurd (omega arith)
  take_all (suc n) [] h = refl
  take_all (suc n) (x ∷ xs) h = ap (λ t. x ∷ t) (take_all n xs (omega arith))

  round_finish :
      (fuel pages : ℕ) (after : List Text) (columns columns' : List QueryColumn)
      (done : List (List Text)) (r : QueryResult)
      → fetch run_query table keys key_types page_size pages after ≡ answered r
      → page_columns keys pages r.columns columns ≡ columns'
      → after_page {E = E} page_size (pages + 1) pk columns' after r.rows ≡ finish
      → export_pages run_query table keys key_types page_size (suc fuel) pages after columns done
        ≡ ok (record {
          table_name = table;
          columns = columns';
          rows = done ++ r.rows;
          total_rows = length (done ++ r.rows);
          pages = pages + 1;
        })
  round_finish fuel pages after columns columns' done r got cols end =
      unfold export_pages in ground arith

  round_continue :
      (fuel pages : ℕ) (after next : List Text) (columns columns' : List QueryColumn)
      (done : List (List Text)) (r : QueryResult)
      → fetch run_query table keys key_types page_size pages after ≡ answered r
      → page_columns keys pages r.columns columns ≡ columns'
      → after_page {E = E} page_size (pages + 1) pk columns' after r.rows ≡ continue_after next
      → export_pages run_query table keys key_types page_size (suc fuel) pages after columns done
        ≡ export_pages run_query table keys key_types page_size fuel
            (pages + 1)
            next
            columns'
            (done ++ r.rows)
  round_continue fuel pages after next columns columns' done r got cols goes =
      unfold export_pages in ground arith

  last_of : (xs : List (List Text)) → 0 < length xs → (l : List Text) × (last? xs ≡ some l)
  last_of [] h = absurd (omega arith)
  last_of (x ∷ xs) h = last?-some x xs

  export_rest :
      (fuel pages : ℕ) (after : List Text) (columns : List QueryColumn)
      (done rest : List (List Text))
      → At pages after columns done rest
      → length rest < fuel
      → Succeeds
          (export_pages run_query table keys key_types page_size fuel pages after columns done)
  export_rest zero pages after columns done rest at enough = absurd (omega arith)
  export_rest (suc fuel) pages after columns done rest at enough =
      elim (Bool-cases (ltb (length rest) page_size)) [
        | inl short ↦
            let all : done ++ take page_size rest ≡ rows =
              ap (λ x. done ++ x) (take_all page_size rest (ground arith)) ∙ sym at.parts in
            (
              record {
                table_name = table;
                columns = mark_keys keys cs;
                rows = done ++ take page_size rest;
                total_rows = length (done ++ take page_size rest);
                pages = pages + 1;
              },
              round_finish fuel pages after columns (mark_keys keys cs) done _
                  (fetch_rest pages after columns done rest at)
                  (marked pages after columns done rest at) (stops pages after rest (ground arith)),
              all,
              refl,
              ap length all,
            )
        | inr full ↦
            let (l', is') =
              last_of (take page_size rest)
                (omega (arith, length-take page_size rest, ltb-false-le _ _ full)) in
            let step =
              round_continue fuel pages after (keys_of cs pk l') columns (mark_keys keys cs) done _
                (fetch_rest pages after columns done rest at)
                (marked pages after columns done rest at)
                (goes_on pages after columns done rest l' at (ltb-false-le _ _ full) is') in
            let at' : At (pages + 1) (keys_of cs pk l') (mark_keys keys cs)
                (done ++ take page_size rest) (drop page_size rest) =
              record {
                parts =
                    at.parts
                    ∙ ap (λ x. done ++ x) (sym (take-append-drop page_size rest))
                    ∙ sym (append_assoc done (take page_size rest) (drop page_size rest));
                place =
                    inr
                      (omega arith, refl, l', last?-append done (take page_size rest) l' is', refl);
              } in
            rw step (
              export_rest fuel (pages + 1) (keys_of cs pk l') (mark_keys keys cs)
                (done ++ take page_size rest) (drop page_size rest) at'
                (omega (arith, length-drop page_size rest, ltb-false-le _ _ full)))
      ]

  -- Let the server serve a table whose rows are sorted by their keys, no two with the same key
  -- values, with at least one key besides the client, valid names and a page size of at least 1. Then
  -- with fuel for one page more than there are rows, the export ends, and returns every row of the
  -- table exactly once and in key order, their number, and the columns with the keys marked.
  pub export_table-all_rows :
      (fuel : ℕ)
      → length rows < fuel
      → (result : TableExportResult) × (export_table run_query table keys key_types page_size fuel
          ≡ ok result)
        × (result.rows ≡ rows)
        × (result.columns ≡ mark_keys keys cs)
        × (result.total_rows ≡ length rows)
  unfolding export_table
  export_table-all_rows fuel enough =
      export_rest fuel 0 [] [] [] rows (record { parts = refl; place = inl (refl, refl, refl) })
        enough
