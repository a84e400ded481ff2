-- ===== src/Transport/Merge.antt =====
-- The deduper of adt/transport.go against one that has no index and searches the objects by key.
use adtler.Prelude.{
  ◌≡◌, refl, sym, ◌∙◌, ℕ, zero, suc, true, false, List, [], ◌∷◌, ◌++◌, Option, none, some,
  if◌then◌else◌, length, Text, text_eq, text_eq_iff, subst, Bool-cases, Option-cases, inl, inr,
  arith,
}
use adtler.Transport.Objects.{
  TransportObject, object_key, Deduper, find_key, attribute, attribute_at, add,
}

-- The place of the first object with the key.
unfoldable pub place_of : Text → List TransportObject → Option ℕ
unfolding text_eq object_key
place_of key [] = none
place_of key (o ∷ objects) =
    let rest = place_of key objects in
    if text_eq (object_key o) key then some 0 else elim rest [ none ↦ none | some i ↦ some (suc i) ]

-- The deduper without an index: the first object with the key takes the task, and an object
-- with a new key is put behind the others.
unfoldable pub merge : TransportObject → List TransportObject → List TransportObject
unfolding text_eq object_key attribute
merge o [] = o ∷ []
merge o (p ∷ objects) =
    let rest = merge o objects in
    if text_eq (object_key p) (object_key o) then attribute o.task p ∷ objects else p ∷ rest

unfoldable pub add_plain : TransportObject → List TransportObject → List TransportObject
unfolding text_eq merge
add_plain o objects = if text_eq o.name [] then objects else merge o objects

-- The index gives every key the place of its first object.
unfoldable pub IsIndexed : Deduper → Type 0
IsIndexed d = (key : Text) → find_key key d.index ≡ place_of key d.objects

merge-some :
    (o : TransportObject) (objects : List TransportObject) (i : ℕ)
    → place_of (object_key o) objects ≡ some i
    → merge o objects ≡ attribute_at i o.task objects
unfolding merge place_of attribute_at
merge-some o [] i h = ground arith
merge-some o (p ∷ objects) zero h = elim (Bool-cases (text_eq (object_key p) (object_key o))) [
  | inl e ↦ rw e refl
  | inr e ↦ elim (Option-cases (place_of (object_key o) objects)) [
    | inl x ↦ ground arith
    | inr (j, x) ↦ ground arith
  ]
]
merge-some o (p ∷ objects) (suc i) h = elim (Bool-cases (text_eq (object_key p) (object_key o))) [
  | inl e ↦ ground arith
  | inr e ↦ elim (Option-cases (place_of (object_key o) objects)) [
    | inl x ↦ ground arith
    | inr (j, x) ↦ ground (arith, merge-some o objects i)
  ]
]

merge-none :
    (o : TransportObject) (objects : List TransportObject)
    → place_of (object_key o) objects ≡ none
    → merge o objects ≡ objects ++ (o ∷ [])
unfolding merge place_of
merge-none o [] h = refl
merge-none o (p ∷ objects) h = elim (Bool-cases (text_eq (object_key p) (object_key o))) [
  | inl e ↦ ground arith
  | inr e ↦ elim (Option-cases (place_of (object_key o) objects)) [
    | inl x ↦ rw (e, merge-none o objects x) refl
    | inr (j, x) ↦ ground arith
  ]
]

pub attribute_key :
    (task : Text) (o : TransportObject) → object_key (attribute task o) ≡ object_key o
unfolding attribute object_key
attribute_key task o = ground arith

place_of-attribute_at :
    (key task : Text) (i : ℕ) (objects : List TransportObject)
    → place_of key (attribute_at i task objects) ≡ place_of key objects
unfolding place_of attribute_at
place_of-attribute_at key task i [] = refl
place_of-attribute_at key task zero (o ∷ objects) = rw (attribute_key task o) refl
place_of-attribute_at key task (suc i) (o ∷ objects) =
    rw (place_of-attribute_at key task i objects) refl

place_of-cons :
    (key : Text) (o p : TransportObject) (objects : List TransportObject)
    → (text_eq (object_key o) key ≡ true → text_eq (object_key p) key ≡ false)
    → place_of key (objects ++ (o ∷ []))
      ≡ (if text_eq (object_key o) key then some (length objects) else place_of key objects)
    → place_of key (p ∷ objects ++ (o ∷ [])) ≡ (
        if text_eq (object_key o) key
        then some (suc (length objects))
        else place_of key (p ∷ objects))
unfolding place_of
place_of-cons key o p objects h rest = elim (Bool-cases (text_eq (object_key o) key)) [
  | inl e ↦ rw (h e, rest, e) refl
  | inr e ↦ rw (rest, e) refl
]

place_of-append :
    (key : Text) (o : TransportObject) (objects : List TransportObject)
    → place_of (object_key o) objects ≡ none
    → place_of key (objects ++ (o ∷ []))
      ≡ (if text_eq (object_key o) key then some (length objects) else place_of key objects)
unfolding place_of
place_of-append key o [] h = refl
place_of-append key o (p ∷ objects) h = elim (Bool-cases (text_eq (object_key p) (object_key o))) [
  | inl e ↦ ground arith
  | inr e ↦ elim (Option-cases (place_of (object_key o) objects)) [
    | inl x ↦
        place_of-cons key o p objects
          (λ y.
            subst (λ k. text_eq (object_key p) k ≡ false) ((text_eq_iff (object_key o) key).0 y) e)
          (place_of-append key o objects x)
    | inr (i, x) ↦ ground arith
  ]
]

-- Adding keeps the index right.
pub add-IsIndexed : (o : TransportObject) (d : Deduper) → IsIndexed d → IsIndexed (add o d)
unfolding add find_key IsIndexed
add-IsIndexed o d h key = elim (Bool-cases (text_eq o.name [])) [
  | inl e ↦ rw e (h key)
  | inr e ↦ elim (Option-cases (find_key (object_key o) d.index)) [
    | inl x ↦ rw (e, x, place_of-append key o d.objects (sym (h (object_key o)) ∙ x), h key) refl
    | inr (i, x) ↦ rw (e, x, place_of-attribute_at key o.task i d.objects) (h key)
  ]
]

pub add-objects :
    (o : TransportObject) (d : Deduper) → IsIndexed d → (add o d).objects ≡ add_plain o d.objects
unfolding add add_plain IsIndexed
add-objects o d h = elim (Bool-cases (text_eq o.name [])) [
  | inl e ↦ rw e refl
  | inr e ↦ elim (Option-cases (find_key (object_key o) d.index)) [
    | inl x ↦ rw (e, x, merge-none o d.objects (sym (h (object_key o)) ∙ x)) refl
    | inr (i, x) ↦ rw (e, x, merge-some o d.objects i (sym (h (object_key o)) ∙ x)) refl
  ]
]
