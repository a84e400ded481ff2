-- ===== src/Rollback/Safety/Origins.antt =====
-- What keepLocalOrigin keeps for deletion: objects that SAP says are of the request's system.
use adtler.Prelude.{
  ◌≡◌, ◌≢◌, refl, inl, inr, not, ◌||◌, List, [], ◌∷◌, ◌++◌, All, All-append, Option, none, some,
  Text, codes, text_eq, text_eq_iff, to_upper, Bool-cases, arith,
}
use adtler.Sql.{escape_value}
use adtler.Adt.{Result, ok, err, Backend, Log, is_unauthorized, run_query, perform}
use adtler.Adt.Yields.{
  Yields, Yields-pure, Yields-lift, Yields-perform, Yields-option, Yields-note, Yields-bind,
}
use adtler.Rollback.Entries.{RollbackEntry}
use adtler.Rollback.Targets.{first_cell, equals_name, query_one}
use adtler.Rollback.Deletion.{
  CreatedObject, OriginScan, note_origin, source_system, tadir_source_system, check_origin,
  check_origins,
}

abbrev pub origin_query : RollbackEntry → Text
origin_query e =
    equals_name
      (codes "SELECT SRCSYSTEM FROM TADIR WHERE PGMID = 'R3TR' AND OBJECT = '"
        ++ (escape_value e.object_type ++ codes "' AND OBJ_NAME"))
      e.name

module _ (b : Backend) where
  -- SAP has answered a request for the object's source system with this one.
  pub record FromSystem (sid : Text) (o : CreatedObject) : Type 0 where
    pub asked : Log
    pub rows : List (List Text)
    pub cell : Text
    pub answered : b.query asked (origin_query o.entry) 1 ≡ ok rows
    pub first : first_cell rows ≡ some cell
    pub same : to_upper cell ≡ sid
    pub known : sid ≢ []

  query_one-Answer :
      (sql : Text)
      → Yields
          (λ found.
            (asked : Log) × (rows : List (List Text)) × (b.query asked sql 1 ≡ ok rows)
            × (found ≡ first_cell rows))
          (query_one b sql)
  unfolding query_one
  query_one-Answer sql =
      Yields-bind (λ rows. (asked : Log) × (b.query asked sql 1 ≡ ok rows)) _
        (perform (run_query sql 1) (λ log. b.query log sql 1)) _
        (Yields-perform _ _ _ (λ log rows h. (log, h)))
        (λ rows h. Yields-pure _ (first_cell rows) (h.0, rows, h.1, refl))

  -- FromSystem, before the systems are compared.
  abbrev Origin : CreatedObject → Text → Type 0
  Origin o source = (sid : Text) → source ≡ sid → sid ≢ [] → FromSystem sid o

  source_system-Origin :
      (o : CreatedObject) (asked : Log) (rows : List (List Text)) (found : Option Text)
      → b.query asked (origin_query o.entry) 1 ≡ ok rows
      → found ≡ first_cell rows
      → (source : Text) → source_system found ≡ ok source
      → Origin o source
  unfolding source_system
  source_system-Origin o asked rows none answered same source h sid e k = absurd (cc h)
  source_system-Origin o asked rows (some cell) answered same source h sid e k = record {
    asked = asked;
    rows = rows;
    cell = cell;
    answered = answered;
    first = cc;
    same = cc;
    known = k;
  }

  tadir_source_system-Origin :
      (o : CreatedObject)
      → Yields (Origin o) (tadir_source_system b o.entry.object_type o.entry.name)
  unfolding tadir_source_system
  tadir_source_system-Origin o =
      Yields-bind _ _ (query_one b (origin_query o.entry)) _
        (query_one-Answer (origin_query o.entry))
        (λ found h.
          Yields-lift _ (source_system found) (source_system-Origin o h.0 h.1 found h.2 h.3))

  module _ (C : CreatedObject → Type 0) (sid : Text) where
    abbrev Kept : CreatedObject → Type 0
    Kept o = C o × FromSystem sid o

    note_origin-Kept :
        (o : CreatedObject) (r : Result Text) (st : OriginScan)
        → C o
        → ((source : Text) → r ≡ ok source → Origin o source)
        → All Kept st.local
        → All Kept (note_origin sid o r st).local
    unfolding note_origin
    note_origin-Kept o (err e) st c origin h = elim (Bool-cases (is_unauthorized e)) [
      | inl x ↦ rw x h
      | inr x ↦ rw x h
    ]
    note_origin-Kept o (ok source) st c origin h =
        elim (Bool-cases (text_eq sid [] || not (text_eq source sid))) [
          | inl x ↦ rw x h
          | inr x ↦ rw x (
              All-append Kept st.local _ h (
                (
                  c,
                  origin source refl sid (ground (arith, text_eq_iff source sid))
                      (λ n. ground (arith, text_eq_iff sid [])),
                ),
                tt,
              ))
        ]

    check_origin-Kept :
        (o : CreatedObject) (st : OriginScan)
        → C o
        → All Kept st.local
        → Yields (λ st'. All Kept st'.local) (check_origin b sid o st)
    unfolding check_origin
    check_origin-Kept o st c h =
        Yields-option _ st.rejected _ _
          (λ _.
            Yields-note _ (tadir_source_system b o.entry.object_type o.entry.name)
              (λ r. note_origin sid o r st)
              (λ log.
                note_origin-Kept o (tadir_source_system b o.entry.object_type o.entry.name log).0 st
                  c (λ source q. (tadir_source_system-Origin o).at log source q) h))
          (λ e _. Yields-pure _ _ h)

    pub check_origins-Kept :
        (objs : List CreatedObject) (st : OriginScan)
        → All C objs
        → All Kept st.local
        → Yields (λ st'. All Kept st'.local) (check_origins b sid objs st)
    unfolding check_origins
    check_origins-Kept [] st c h = Yields-pure _ st h
    check_origins-Kept (o ∷ objs) st (c, cs) h =
        Yields-bind _ _ (check_origin b sid o st) _ (check_origin-Kept o st c h)
          (λ st' h'. check_origins-Kept objs st' cs h')
