-- ===== src/Dependencies/Objects/Quiet.antt =====
-- GetObjectDependencies of adt/dependencies.go sends nothing behind a 401.
use adtler.Prelude.{◌≡◌, refl, ℕ, true, List, [], ◌∷◌, ◌++◌, Option, Text, codes, to_upper, text_eq}
use adtler.Transport.{QueryAnswer}
use adtler.Adt.{plain, Result, Log, Exec}
use adtler.Adt.Stops.{
  any_call, Stops, quiet, Ready-start, Stops-pure, Stops-raise, Stops-bind, Stops-if,
  Stops-wrap_error,
}
use adtler.Dependencies.{
  ObjectDependency, rows_of, first_cells, fugr_pool_program_name, pool_program_name,
}
use adtler.Dependencies.Walk.{ddic_chain_deps}
use adtler.Dependencies.Objects.{
  typed_deps, d010tab_deps, oo_deps, pool_of_rows, func_pool_program_name, class_deps, uiac_deps,
  uiad_deps, clamp_depth, capped_chain, is_ddic_type, without_warnings, deps_of_type,
  get_object_dependencies,
}
use adtler.Dependencies.Walk.Stopping.{run-Stops, classify_ddic_objects-Stops, chain-Stops}

module _ (query : Log → Text → ℕ → Result (Option QueryAnswer)) where
  typed_deps-Stops : (names : List Text) → Stops any_call (typed_deps query names)
  unfolding typed_deps
  typed_deps-Stops [] = Stops-pure any_call []
  typed_deps-Stops (n ∷ names) =
      Stops-bind any_call _ _ (classify_ddic_objects-Stops query (n ∷ names))
        (λ types. Stops-pure any_call _)

  d010tab_deps-Stops : (master : Text) (n : ℕ) → Stops any_call (d010tab_deps query master n)
  unfolding d010tab_deps
  d010tab_deps-Stops master n =
      Stops-bind any_call _ _ (run-Stops query _ n)
        (λ qr. typed_deps-Stops (first_cells (rows_of qr)))

  pool_of_rows-Stops :
      (name : Text) (rows : List (List Text)) → Stops any_call (pool_of_rows query name rows)
  unfolding pool_of_rows
  pool_of_rows-Stops name [] = Stops-raise any_call _
  pool_of_rows-Stops name ([] ∷ rows) = Stops-raise any_call _
  pool_of_rows-Stops name (([] ∷ row) ∷ rows) = Stops-raise any_call _
  pool_of_rows-Stops name (((c ∷ n) ∷ row) ∷ rows) = Stops-pure any_call _

  func_pool_program_name-Stops : (name : Text) → Stops any_call (func_pool_program_name query name)
  unfolding func_pool_program_name
  func_pool_program_name-Stops name =
      Stops-bind any_call _ _ (Stops-wrap_error any_call _ _ (run-Stops query _ 1))
        (λ qr. pool_of_rows-Stops name (rows_of qr))

  oo_deps-Stops : (name : Text) (kinds : List Text) → Stops any_call (oo_deps query name kinds)
  unfolding oo_deps
  oo_deps-Stops name kinds =
      Stops-bind any_call _ _ (run-Stops query _ _) (λ qr. Stops-pure any_call _)

  class_deps-Stops :
      (suffix name : Text) (kinds : List Text) (n : ℕ)
      → Stops any_call (class_deps query suffix name kinds n)
  unfolding class_deps
  class_deps-Stops suffix name kinds n =
      Stops-bind any_call (d010tab_deps query (pool_program_name suffix name) n) _
        (d010tab_deps-Stops (pool_program_name suffix name) n)
        (λ ddic.
          Stops-bind any_call (oo_deps query name kinds) _ (oo_deps-Stops name kinds)
            (λ oo. Stops-pure any_call _))

  uiac_deps-Stops : (cat : Text) (n : ℕ) → Stops any_call (uiac_deps query cat n)
  unfolding uiac_deps
  uiac_deps-Stops cat n =
      Stops-bind any_call _ _ (run-Stops query _ n) (λ qr. Stops-pure any_call _)

  uiad_deps-Stops : (app : Text) → Stops any_call (uiad_deps query app)
  unfolding uiad_deps
  uiad_deps-Stops app = Stops-bind any_call _ _ (run-Stops query _ 1) (λ qr. Stops-pure any_call _)

  capped_chain-Stops :
      (t name : Text) (n depth : ℕ) → Stops any_call (capped_chain query t name n depth)
  unfolding capped_chain ddic_chain_deps
  capped_chain-Stops t name n depth =
      Stops-bind any_call _ _ (chain-Stops query (clamp_depth depth) _ _)
        (λ w. Stops-pure any_call _)

  without_warnings-Stops :
      (m : Exec (List ObjectDependency))
      → Stops any_call m
      → Stops any_call (without_warnings query m)
  unfolding without_warnings
  without_warnings-Stops m s = Stops-bind any_call m _ s (λ deps. Stops-pure any_call _)

  deps_of_type-Stops :
      (t name : Text) (n depth : ℕ) → Stops any_call (deps_of_type query t name n depth)
  unfolding deps_of_type
  deps_of_type-Stops t name n depth =
      let flat =
        λ (m : Text). without_warnings-Stops (d010tab_deps query m n) (d010tab_deps-Stops m n) in
      Stops-if any_call (text_eq t (codes "PROG")) _ _ (flat name) (
        Stops-if any_call (text_eq t (codes "FUGR")) _ _ (flat (fugr_pool_program_name name)) (
          Stops-if any_call (text_eq t (codes "FUNC")) _ _
            (without_warnings-Stops _ (
              Stops-bind any_call _ _ (func_pool_program_name-Stops name)
                (λ master. d010tab_deps-Stops master n)))
            (Stops-if any_call (text_eq t (codes "CLAS")) _ _
              (without_warnings-Stops _
                (class_deps-Stops (codes "CP") name (codes "1" ∷ codes "2" ∷ []) n))
              (Stops-if any_call (text_eq t (codes "INTF")) _ _
                (without_warnings-Stops _ (class_deps-Stops (codes "IP") name (codes "0" ∷ []) n))
                (Stops-if any_call (text_eq t (codes "UIAC")) _ _ (uiac_deps-Stops name n) (
                  Stops-if any_call (text_eq t (codes "UIAD")) _ _ (uiad_deps-Stops name) (
                    Stops-if any_call (is_ddic_type t) _ _ (capped_chain-Stops t name n depth)
                      (Stops-raise any_call (plain (codes "unsupported object type " ++ t))))))))))

-- Whatever SAP answers, GetObjectDependencies sends no query behind one that was answered with
-- 401, for every type of object.
pub get_object_dependencies-quiet :
    (query : Log → Text → ℕ → Result (Option QueryAnswer)) (object_type object_name : Text)
    (max_results max_depth : ℕ)
    → quiet (get_object_dependencies query object_type object_name max_results max_depth []).1
      ≡ true
unfolding get_object_dependencies
get_object_dependencies-quiet query object_type object_name max_results max_depth =
    ((Stops-bind any_call _ _
          (deps_of_type-Stops query (to_upper object_type) object_name max_results max_depth)
          (λ (deps, warnings). Stops-pure any_call _)).at
        [] (Ready-start any_call)).quietly
      refl
