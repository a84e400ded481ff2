-- ===== src/Dependencies/Walk/Once.antt =====
-- ddicChainDeps of adt/dependencies.go reports no object twice.
use adtler.Prelude.{
  ◌≡◌, ◌≢◌, refl, sym, ap, ◌∙◌, subst, ℕ, false, ||_false, List, [], ◌∷◌, ◌++◌, Option, any, All,
  map, Text, text_eq, text_eq_iff, Bool-cases, inl, inr,
}
use adtler.Transport.{QueryAnswer}
use adtler.Adt.{Result, ok, Log}
use adtler.Dependencies.{UseType, ObjectDependency}
use adtler.Dependencies.Walk.{QueueEntry, key_of, Traversal, warn, add_dep, ddic_chain_deps}
use adtler.Dependencies.Walk.Kept.{Reports, chain-Yields}

-- No text stands in the list twice.
abbrev pub Distinct : List Text → Type 0
Distinct [] = Unit
Distinct (x ∷ xs) = All (λ y. y ≢ x) xs × Distinct xs

All-snoc : (P : Text → Type 0) (xs : List Text) (y : Text) → All P xs → P y → All P (xs ++ (y ∷ []))
All-snoc P [] y h q = (q, tt)
All-snoc P (x ∷ xs) y (h, hs) q = (h, All-snoc P xs y hs q)

Distinct-snoc :
    (xs : List Text) (y : Text) → Distinct xs → All (λ x. x ≢ y) xs → Distinct (xs ++ (y ∷ []))
Distinct-snoc [] y h q = (tt, tt)
Distinct-snoc (x ∷ xs) y (h, hs) (q, qs) =
    (All-snoc (λ z. z ≢ x) xs y h (λ e. q (sym e)), Distinct-snoc xs y hs qs)

any-false : (y : Text) (xs : List Text) → any (text_eq y) xs ≡ false → All (λ x. x ≢ y) xs
any-false y [] h = tt
any-false y (x ∷ xs) h =
    let (a, b) = ||_false (text_eq y x) _ h in
    (λ e. cc (a, (text_eq_iff y x).1 (sym e)), any-false y xs b)

-- Each object has the name of its dependency, and a type that the traversal gives to the dependency's
-- use type.
pub data Found : List ObjectDependency → List QueueEntry → Type 0 where
  none_found : Found [] []
  also_found :
      {deps : List ObjectDependency} {found : List QueueEntry} (d : ObjectDependency)
      (entry : QueueEntry)
      → Found deps found
      → d.name ≡ entry.1
      → Reports entry.0 d.use_type
      → Found (deps ++ (d ∷ [])) (found ++ (entry ∷ []))

map-snoc :
    {A B : Type 0} (f : A → B) (xs : List A) (y : A)
    → map f (xs ++ (y ∷ [])) ≡ map f xs ++ (f y ∷ [])
map-snoc f [] y = refl
map-snoc f (x ∷ xs) y = ap (λ t. f x ∷ t) (map-snoc f xs y)

-- What a traversal has found from this start: the objects behind its dependencies, in order. The
-- keys of the start and of these objects are the visited ones, and they differ.
pub record Once (start : QueueEntry) (w : Traversal) : Type 0 where
  pub found : List QueueEntry
  pub matched : Found w.deps found
  pub marks : w.visited ≡ key_of start ∷ map key_of found
  pub distinct : Distinct (key_of start ∷ map key_of found)

module _ (start : QueueEntry) where
  abbrev report : QueueEntry → UseType → Traversal → Traversal
  report entry t w = record {
    visited = w.visited ++ (key_of entry ∷ []);
    deps = w.deps ++ (record { name = entry.1; use_type = t } ∷ []);
    next = w.next ++ (entry ∷ []);
    warnings = w.warnings;
  }

  report-Once :
      (entry : QueueEntry) (t : UseType) (w : Traversal)
      → Reports entry.0 t
      → Once start w
      → All (λ x. x ≢ key_of entry) w.visited
      → Once start (report entry t w)
  report-Once entry t w r h fresh =
      let keys = map-snoc key_of h.found entry in
      let marks =
        ap (λ v. v ++ (key_of entry ∷ [])) h.marks ∙ ap (λ v. key_of start ∷ v) (sym keys) in
      record {
        found = h.found ++ (entry ∷ []);
        matched = also_found _ entry h.matched refl r;
        marks = marks;
        distinct = subst Distinct marks (
            Distinct-snoc w.visited (key_of entry) (subst Distinct (sym h.marks) h.distinct) fresh);
      }

  add_dep-Once :
      (name dep_type : Text) (t : UseType) (w : Traversal)
      → Reports dep_type t
      → Once start w
      → Once start (add_dep name dep_type t w)
  unfolding add_dep
  add_dep-Once [] dep_type t w r h = h
  add_dep-Once (c ∷ name) dep_type t w r h =
      elim (Bool-cases (any (text_eq (key_of (dep_type, c ∷ name))) w.visited)) [
        | inl e ↦ rw e h
        | inr e ↦ rw e (
            report-Once (dep_type, c ∷ name) t w r h
              (any-false (key_of (dep_type, c ∷ name)) w.visited e))
      ]

  warn-Once : (text : Text) (w : Traversal) → Once start w → Once start (warn text w)
  unfolding warn
  warn-Once text w h = record {
    found = h.found;
    matched = h.matched;
    marks = h.marks;
    distinct = h.distinct;
  }

  open-Once : (w : Traversal) → Once start w → Once start (record w { next = [] })
  open-Once w h = record {
    found = h.found;
    matched = h.matched;
    marks = h.marks;
    distinct = h.distinct;
  }

-- ddicChainDeps reports no object twice, and not the one that it starts from: behind its
-- dependencies, in order, stand objects with their names, each of type DTEL, where the dependency's
-- use type is a data element, of type DOMA, where it is a domain, or of type TABL; and the keys of
-- the start and of these objects, no two of them equal, are those that the traversal has visited.
pub ddic_chain_deps-Once :
    (query : Log → Text → ℕ → Result (Option QueryAnswer)) (name obj_type : Text) (max_depth : ℕ)
    (log : Log) (w : Traversal)
    → (ddic_chain_deps query name obj_type max_depth log).0 ≡ ok w
    → Once (obj_type, name) w
unfolding ddic_chain_deps
ddic_chain_deps-Once query name obj_type max_depth log w h =
    let start : QueueEntry = (obj_type, name) in
    (chain-Yields query (Once start) (add_dep-Once start) (warn-Once start) (open-Once start)
        max_depth (start ∷ []) _
        (record { found = []; matched = none_found; marks = refl; distinct = (tt, tt) })).at
      log w h
