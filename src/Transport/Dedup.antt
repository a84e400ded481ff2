-- ===== src/Transport/Dedup.antt =====
-- The deduper of adt/transport.go: the objects of a query's rows, and their keys.
use adtler.Prelude.{
  ◌≡◌, refl, sym, ap, ◌∙◌, ℕ, Bool, true, false, List, [], ◌∷◌, if◌then◌else◌, codes, length, Text,
  text_eq, text_eq_iff, subst, ◌≢◌, All, equal_fold, to_upper, leb, ◌||◌, Bool-cases, inl, inr,
}
use adtler.Transport.{QueryAnswer, cell, Result, ok, err}
use adtler.Transport.Objects.{
  pgm_id_release_marker, object_of, add_rows, checked_objects, answered_objects, object_query,
  objects_of_numbers, get_transport_objects_via_query, transport_query_numbers, is_transport_number,
  e071_object_query_max_rows, TransportObject, object_key, Deduper, new_deduper, find_key, add,
}
use adtler.Transport.Merge.{
  place_of, merge, add_plain, IsIndexed, attribute_key, add-IsIndexed, add-objects,
}

-- The objects of the rows without the release markers, merged one behind the other.
unfoldable pub merge_rows :
    Text → QueryAnswer → List (List Text) → List TransportObject → List TransportObject
unfolding cell equal_fold object_of add_plain
merge_rows number qr [] objects = objects
merge_rows number qr (row ∷ rows) objects = merge_rows number qr rows (
    if equal_fold (cell qr row (codes "PGMID")) pgm_id_release_marker
    then objects
    else add_plain (object_of number qr row) objects)

add_unless :
    (b : Bool) (o : TransportObject) (d : Deduper)
    → IsIndexed d
    → IsIndexed (if b then d else add o d)
      × ((if b then d else add o d).objects ≡ (if b then d.objects else add_plain o d.objects))
add_unless true o d h = (h, refl)
add_unless false o d h = (add-IsIndexed o d h, add-objects o d h)

add_rows-merge_rows :
    (number : Text) (qr : QueryAnswer) (rows : List (List Text)) (d : Deduper)
    → IsIndexed d
    → (add_rows number qr rows d).objects ≡ merge_rows number qr rows d.objects
unfolding add_rows merge_rows
add_rows-merge_rows number qr [] d h = refl
add_rows-merge_rows number qr (row ∷ rows) d h =
    let (i, x) =
      add_unless (equal_fold (cell qr row (codes "PGMID")) pgm_id_release_marker)
        (object_of number qr row) d h in
    add_rows-merge_rows number qr rows _ i ∙ ap (merge_rows number qr rows) x

-- No two objects have one key.
abbrev pub Distinct : List TransportObject → Type 0
Distinct [] = Unit
Distinct (o ∷ objects) = All (λ p. object_key p ≢ object_key o) objects × Distinct objects

merge-All :
    (key : Text) (o : TransportObject) (objects : List TransportObject)
    → object_key o ≢ key
    → All (λ p. object_key p ≢ key) objects
    → All (λ p. object_key p ≢ key) (merge o objects)
unfolding merge
merge-All key o [] h hs = (h, tt)
merge-All key o (p ∷ objects) h (hp, hs) =
    elim (Bool-cases (text_eq (object_key p) (object_key o))) [
      | inl e ↦ rw e (λ x. hp (sym (attribute_key o.task p) ∙ x), hs)
      | inr e ↦ rw e (hp, merge-All key o objects h hs)
    ]

merge-Distinct :
    (o : TransportObject) (objects : List TransportObject)
    → Distinct objects
    → Distinct (merge o objects)
unfolding merge
merge-Distinct o [] h = (tt, tt)
merge-Distinct o (p ∷ objects) (hp, hs) =
    elim (Bool-cases (text_eq (object_key p) (object_key o))) [
      | inl e ↦ rw (e, attribute_key o.task p) (hp, hs)
      | inr e ↦ rw e (
        merge-All (object_key p) o objects
            (λ x. cc (e, (text_eq_iff (object_key p) (object_key o)).1 (sym x))) hp,
        merge-Distinct o objects hs,
      )
    ]

merge_unless-Distinct :
    (b : Bool) (o : TransportObject) (objects : List TransportObject)
    → Distinct objects
    → Distinct (if b then objects else add_plain o objects)
unfolding add_plain
merge_unless-Distinct true o objects h = h
merge_unless-Distinct false o objects h = elim (Bool-cases (text_eq o.name [])) [
  | inl e ↦ rw e h
  | inr e ↦ rw e (merge-Distinct o objects h)
]

merge_rows-Distinct :
    (number : Text) (qr : QueryAnswer) (rows : List (List Text)) (objects : List TransportObject)
    → Distinct objects
    → Distinct (merge_rows number qr rows objects)
unfolding merge_rows
merge_rows-Distinct number qr [] objects h = h
merge_rows-Distinct number qr (row ∷ rows) objects h =
    merge_rows-Distinct number qr rows _
      (merge_unless-Distinct _ (object_of number qr row) objects h)

-- The deduper's index changes no result: from the empty deduper, the objects of any rows are
-- those of a fold that has no index, where every row without a release marker and with a name
-- gives its task to the first object with its key, or is put behind the objects when there is
-- none.
pub add_rows-refines :
    (number : Text) (qr : QueryAnswer) (rows : List (List Text))
    → (add_rows number qr rows new_deduper).objects ≡ merge_rows number qr rows []
unfolding IsIndexed find_key place_of
add_rows-refines number qr rows = add_rows-merge_rows number qr rows new_deduper (λ key. refl)

unfoldable pub Listed : Result (List TransportObject) → Type 0
Listed (err e) = Unit
Listed (ok objects) = Distinct objects

checked_objects-Listed :
    (number : Text) (qr : QueryAnswer) (r : Result (Unit {0}))
    → Listed (checked_objects number qr r)
unfolding checked_objects Listed
checked_objects-Listed number qr (err e) = tt
checked_objects-Listed number qr (ok done) =
    subst Distinct (sym (add_rows-refines number qr qr.rows))
      (merge_rows-Distinct number qr qr.rows [] tt)

answered_objects-Listed :
    (number : Text) (r : Result QueryAnswer) → Listed (answered_objects number r)
unfolding answered_objects Listed
answered_objects-Listed number (err e) = tt
answered_objects-Listed number (ok qr) =
    elim (Bool-cases (
      leb e071_object_query_max_rows (length qr.rows)
      || leb e071_object_query_max_rows qr.total_rows)) [
        | inl e ↦ rw e tt
        | inr e ↦ rw e (checked_objects-Listed number qr _)
      ]

module _ (run_query : Text → ℕ → Result QueryAnswer) where
  objects_of_numbers-Listed :
      (number : Text) (r : Result (List Text)) → Listed (objects_of_numbers run_query number r)
  unfolding objects_of_numbers Listed
  objects_of_numbers-Listed number (err e) = tt
  objects_of_numbers-Listed number (ok numbers) =
      answered_objects-Listed number (run_query (object_query numbers) e071_object_query_max_rows)

  get_transport_objects_via_query-Listed :
      (number : Text) → Listed (get_transport_objects_via_query run_query number)
  unfolding get_transport_objects_via_query Listed
  get_transport_objects_via_query-Listed number = elim (Bool-cases (is_transport_number number)) [
    | inl e ↦ rw e (
        objects_of_numbers-Listed (to_upper number)
          (transport_query_numbers run_query (to_upper number)))
    | inr e ↦ rw e tt
  ]

-- Whatever the queries answer, a result of the object query has no two objects with one key
-- of program id, type and name.
pub get_transport_objects_via_query-Distinct :
    (run_query : Text → ℕ → Result QueryAnswer) (number : Text) (objects : List TransportObject)
    → get_transport_objects_via_query run_query number ≡ ok objects
    → Distinct objects
unfolding Listed
get_transport_objects_via_query-Distinct run_query number objects h =
    subst Listed h (get_transport_objects_via_query-Listed run_query number)
