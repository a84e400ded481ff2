-- ===== src/Export/Complete.antt =====
-- A table that the export reports as complete ended with a short page, whatever the server answers.
use adtler.Prelude.{
  ℕ, zero, suc, ◌+◌, ◌≤◌, ◌<◌, ◌≡◌, refl, sym, ap, ◌∙◌, append_assoc, false, List, [], ◌++◌, some,
  arith, length, last?, Text, Option-cases, inl, inr, ◌⊎◌,
}
use adtler.Sql.{filter_non_mandt_keys}
use adtler.Export.{
  QueryColumn, QueryResult, Answer, answered, failed, ExportError, TableExportResult, ok, Next,
  finish, stop, continue_after, after_page, fetch, export_pages, export_table, page_columns,
  extract_key_values, values_equal,
}

after_page-finish :
    {E : Type 0} (n pages : ℕ) (ks : List Text) (cs : List QueryColumn) (last : List Text)
    (rows : List (List Text))
    → after_page {E = E} n pages ks cs last rows ≡ finish
    → length rows < n
unfolding after_page
after_page-finish n pages ks cs last rows e = ground arith

-- What a page that is continued after shows.
pub record Continues (n : ℕ) (ks : List Text) (cs : List QueryColumn) (last next : List Text)
    (rows : List (List Text)) : Type 0 where
  pub full : n ≤ length rows
  pub moved : values_equal next last ≡ false
  pub last_row : List Text
  pub is_last : last? rows ≡ some last_row
  pub keys : extract_key_values cs ks last_row ≡ some next

pub after_page-continue :
    {E : Type 0} (n pages : ℕ) (ks : List Text) (cs : List QueryColumn) (last next : List Text)
    (rows : List (List Text))
    → after_page {E = E} n pages ks cs last rows ≡ continue_after next
    → Continues n ks cs last next rows
unfolding after_page
after_page-continue n pages ks cs last next rows e = elim (Option-cases (last? rows)) [
  | inl empty ↦ absurd (ground arith)
  | inr (row, is) ↦ record {
    full = ground arith;
    moved = ground arith;
    last_row = row;
    is_last = is;
    keys = ground arith;
  }
]

pub Answer-cases :
    {E : Type 0} (a : Answer E)
    → ((r : QueryResult) × (a ≡ answered r)) ⊎ ((e : E) × (a ≡ failed e))
Answer-cases (answered r) = inl (r, refl)
Answer-cases (failed e) = inr (e, refl)

pub data NextCases {E : Type 0} (n : Next E) : Type 0 where
  finished : n ≡ finish → NextCases n
  stopped : (e : ExportError E) → n ≡ stop e → NextCases n
  continued : (next : List Text) → n ≡ continue_after next → NextCases n

pub Next-cases : {E : Type 0} (n : Next E) → NextCases n
Next-cases finish = finished refl
Next-cases (stop e) = stopped e refl
Next-cases (continue_after next) = continued next refl

module _ {E : Type 0} (run_query : ℕ → Text → ℕ → Answer E) (table : Text) (keys : List Text)
    (key_types : Text → Text) (page_size : ℕ) where
  abbrev ask : ℕ → List Text → Answer (ExportError E)
  ask = fetch run_query table keys key_types page_size

  -- The rows that the server's pages hold, one page after another: a short page is the last, and the
  -- query behind a full page continues after the keys of its last row.
  pub data Paged : ℕ → List Text → List QueryColumn → List (List Text) → Type 0 where
    last_page :
        {pages : ℕ} {after : List Text} {cs : List QueryColumn} {out : List (List Text)}
        (r : QueryResult)
        → ask pages after ≡ answered r
        → length r.rows < page_size
        → out ≡ r.rows
        → Paged pages after cs out
    full_page :
        {pages : ℕ} {after : List Text} {cs : List QueryColumn} {out : List (List Text)}
        (r : QueryResult) (next : List Text) (cs' : List QueryColumn) (more : List (List Text))
        → ask pages after ≡ answered r
        → cs' ≡ page_columns keys pages r.columns cs
        → Continues page_size (filter_non_mandt_keys keys) cs' after next r.rows
        → Paged (pages + 1) next cs' more
        → out ≡ r.rows ++ more
        → Paged pages after cs out

  -- What a run that succeeds has read, from any state of the loop.
  pub record Read (pages : ℕ) (after : List Text) (cs : List QueryColumn) (rows : List (List Text))
      (result : TableExportResult) : Type 0 where
    pub read : List (List Text)
    pub all_rows : result.rows ≡ rows ++ read
    pub counted : result.total_rows ≡ length result.rows
    pub paged : Paged pages after cs read

  export_pages-Read :
      (fuel pages : ℕ) (after : List Text) (cs : List QueryColumn) (rows : List (List Text))
      (result : TableExportResult)
      → export_pages run_query table keys key_types page_size fuel pages after cs rows ≡ ok result
      → Read pages after cs rows result
  unfolding export_pages
  export_pages-Read zero pages after cs rows result e = absurd (ground arith)
  export_pages-Read (suc fuel) pages after cs rows result e =
      elim (Answer-cases (ask pages after)) [
        | inr (x, bad) ↦ absurd (ground arith)
        | inl (r, got) ↦
            let cs' : List QueryColumn = page_columns keys pages r.columns cs in
            elim (Next-cases (
              after_page {E = E} page_size (pages + 1) (filter_non_mandt_keys keys) cs' after
                r.rows)) [
                  | finished end ↦
                      let same : result ≡ record {
                        table_name = table;
                        columns = cs';
                        rows = rows ++ r.rows;
                        total_rows = length (rows ++ r.rows);
                        pages = pages + 1;
                      } =
                        ground arith in
                      record {
                        read = r.rows;
                        all_rows = ap (λ (t : TableExportResult). t.rows) same;
                        counted =
                            ap (λ (t : TableExportResult). t.total_rows) same
                            ∙ sym (ap (λ (t : TableExportResult). length t.rows) same);
                        paged =
                            last_page r got
                              (after_page-finish page_size (pages + 1) _ cs' after r.rows end) refl;
                      }
                  | stopped x bad ↦ absurd (ground arith)
                  | continued next goes ↦
                      let ih =
                        export_pages-Read fuel (pages + 1) next cs' (rows ++ r.rows) result
                          (ground arith) in
                      record {
                        read = r.rows ++ ih.read;
                        all_rows = ih.all_rows ∙ append_assoc rows r.rows ih.read;
                        counted = ih.counted;
                        paged =
                            full_page r next cs' ih.read got refl
                              (after_page-continue page_size (pages + 1) _ cs' after next r.rows
                                goes)
                              ih.paged refl;
                      }
                ]
      ]

  -- If the export of a table succeeds, its rows are the rows of the pages that the server answered,
  -- one after another, and `total_rows` counts them: every page but the last was full and moved on
  -- (its last row's keys differ from those of the page before), each query continued after the keys
  -- of the last row received, and the last page had fewer rows than the page size. So a table is
  -- never reported as complete after a full page, whatever the server answers.
  pub export_table-Read :
      (fuel : ℕ) (result : TableExportResult)
      → export_table run_query table keys key_types page_size fuel ≡ ok result
      → Paged 0 [] [] result.rows × (result.total_rows ≡ length result.rows)
  export_table-Read fuel result e =
      let r = export_pages-Read fuel 0 [] [] [] result (unfold export_table in e) in
      (rw r.all_rows r.paged, r.counted)
