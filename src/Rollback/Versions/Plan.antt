-- ===== src/Rollback/Versions/Plan.antt =====
-- What planRestore writes back: each include that a transport has touched, and to itself.
use adtler.Prelude.{
  ◌||◌, not, all, ◌≡◌, subst, sym, Bool-or, refl, inl, inr, Bool, true, false, List, [], ◌∷◌, All,
  any, Text, text_eq, text_eq_iff, text_eq_refl, text_eq_comm, ||_true, Bool-cases,
}
use adtler.Adt.{Result, ok, err, VersionInfo, wrap_result}
use adtler.Rollback.Versions.{
  find_pre_transport_version, history_has_transport, SourceWrite, includes_in_order, history_of,
  name_include, add_write, plan_includes, some_writes, plan_restore,
}
use adtler.Rollback.Versions.Previous.{Previous, find_pre_transport_version_lem}

abbrev pub writes_to : List SourceWrite → Text → Bool
writes_to writes include = any (λ (w : SourceWrite). text_eq w.include include) writes

module _ (versions : List VersionInfo) (transports : List Text) where
  -- A write takes the include's own history back to the version before the transports.
  abbrev pub GoesBack : SourceWrite → Type 0
  GoesBack w = Previous transports (history_of w.include versions) w.content_uri

  abbrev touched : Text → Bool
  touched include = history_has_transport (history_of include versions) transports

  name_include-ok :
      (include : Text) (r : Result Text) (uri : Text) → name_include include r ≡ ok uri → r ≡ ok uri
  unfolding name_include wrap_result
  name_include-ok [] r uri h = h
  name_include-ok (c ∷ include) (ok u) uri h = h
  name_include-ok (c ∷ include) (err e) uri h = absurd (cc h)

  record Added (include : Text) (r : Result Text) (rest : Result (List SourceWrite))
      (writes : List SourceWrite) : Type 0 where
    uri : Text
    others : List SourceWrite
    found : r ≡ ok uri
    later : rest ≡ ok others
    is_all : writes ≡ record { include = include; content_uri = uri } ∷ others

  add_write-ok :
      (include : Text) (r : Result Text) (rest : Result (List SourceWrite))
      (writes : List SourceWrite)
      → add_write include r rest ≡ ok writes
      → Added include r rest writes
  unfolding add_write
  add_write-ok include (err e) rest writes h = absurd (cc h)
  add_write-ok include (ok uri) (err e) writes h = absurd (cc h)
  add_write-ok include (ok uri) (ok others) writes h = record {
    uri = uri;
    others = others;
    found = refl;
    later = refl;
    is_all = cc;
  }

  record Planned (includes : List Text) (writes : List SourceWrite) : Type 0 where
    go_back : All GoesBack writes
    complete :
        (include : Text)
        → any (text_eq include) includes ≡ true
        → touched include ≡ true
        → writes_to writes include ≡ true

  Planned-skip :
      (i : Text) (includes : List Text) (writes : List SourceWrite)
      → touched i ≡ false
      → Planned includes writes
      → Planned (i ∷ includes) writes
  Planned-skip i includes writes x p = record {
    go_back = p.go_back;
    complete = λ include a t.
        elim (Bool-or (text_eq include i) (any (text_eq include) includes) a) [
          | inl e ↦ absurd (not_both t x ((text_eq_iff include i).0 e))
          | inr e ↦ p.complete include e t
        ];
  }
    where
      not_both : {include : Text} → touched include ≡ true → touched i ≡ false → include ≡ i → ⊥
      not_both t x e = cc

  Planned-add :
      (i : Text) (includes : List Text) (uri : Text) (others : List SourceWrite)
      → find_pre_transport_version (history_of i versions) transports ≡ ok uri
      → Planned includes others
      → Planned (i ∷ includes) (record { include = i; content_uri = uri } ∷ others)
  Planned-add i includes uri others found p = record {
    go_back = (
      ((find_pre_transport_version_lem transports (history_of i versions) uri).0 found).0,
      p.go_back,
    );
    complete = λ include a t.
        elim (Bool-or (text_eq include i) (any (text_eq include) includes) a) [
          | inl e ↦ let same = (text_eq_iff include i).0 e in rw (same, text_eq_refl i) refl
          | inr e ↦ rw (p.complete include e t) (||_true (text_eq i include))
        ];
  }

  ok_nil :
      (writes : List SourceWrite)
      → ◌≡◌ {A = Result (List SourceWrite)} (ok []) (ok writes)
      → [] ≡ writes
  ok_nil writes h = cc

  plan_includes-Planned :
      (includes : List Text) (writes : List SourceWrite)
      → plan_includes versions transports includes ≡ ok writes
      → Planned includes writes
  unfolding plan_includes
  plan_includes-Planned [] writes h = record {
    go_back = subst (All GoesBack) (ok_nil writes h) tt;
    complete = λ include i t. absurd (cc i);
  }
  plan_includes-Planned (i ∷ includes) writes h = elim (Bool-cases (touched i)) [
    | inr x ↦ Planned-skip i includes writes x (plan_includes-Planned includes writes (rw x at h))
    | inl x ↦
        let a =
          add_write-ok i
            (name_include i (find_pre_transport_version (history_of i versions) transports))
            (plan_includes versions transports includes) writes (rw x at h) in
        subst (Planned (i ∷ includes)) (sym a.is_all) (
          Planned-add i includes a.uri a.others
            (name_include-ok i (find_pre_transport_version (history_of i versions) transports) a.uri
              a.found)
            (plan_includes-Planned includes a.others a.later))
  ]

  rest_any :
      (include : Text) (v : VersionInfo) (vs : List VersionInfo)
      → text_eq include v.include ≡ false
      → any (λ (v' : VersionInfo). text_eq v'.include include) (v ∷ vs) ≡ true
      → any (λ (v' : VersionInfo). text_eq v'.include include) vs ≡ true
  rest_any include v vs n h =
      elim (Bool-or (text_eq v.include include)
        (any (λ (v' : VersionInfo). text_eq v'.include include) vs) h) [
          | inr q ↦ q
          | inl q ↦ absurd (cc (n, text_eq_comm include v.include, q))
        ]

  includes_in_order-any :
      (include : Text) (seen : List Text) (vs : List VersionInfo)
      → any (λ (v : VersionInfo). text_eq v.include include) vs ≡ true
      → any (text_eq include) seen ≡ false
      → any (text_eq include) (includes_in_order seen vs) ≡ true
  unfolding includes_in_order
  includes_in_order-any include seen [] h s = absurd (cc h)
  includes_in_order-any include seen (v ∷ vs) h s = elim (Bool-cases (text_eq include v.include)) [
    | inl e ↦
        let same = (text_eq_iff include v.include).0 e in
        rw (← same) (rw (s, text_eq_refl include) refl)
    | inr n ↦
        let later =
          includes_in_order-any include (v.include ∷ seen) vs (rest_any include v vs n h)
            (rw n s) in
        elim (Bool-cases (any (text_eq v.include) seen)) [
          | inl x ↦ rw x later
          | inr x ↦ rw (x, n) later
        ]
  ]

  some_writes-ok :
      (r : Result (List SourceWrite)) (writes : List SourceWrite)
      → some_writes r ≡ ok writes
      → r ≡ ok writes
  unfolding some_writes
  some_writes-ok (err e) writes h = absurd (cc h)
  some_writes-ok (ok []) writes h = absurd (cc h)
  some_writes-ok (ok (w ∷ ws)) writes h = h

  -- The include of `v` is untouched, or is written.
  abbrev pub is_covered : List SourceWrite → VersionInfo → Bool
  is_covered writes v =
      not (history_has_transport (history_of v.include versions) transports)
      || writes_to writes v.include

  covered :
      (writes : List SourceWrite) (vs : List VersionInfo)
      → ((v : VersionInfo)
          → any (λ (v' : VersionInfo). text_eq v'.include v.include) vs ≡ true
          → is_covered writes v ≡ true)
      → all (is_covered writes) vs ≡ true
  covered writes [] h = refl
  covered writes (v ∷ vs) h =
      let here = h v (rw (text_eq_refl v.include) refl) in
      let later =
        covered writes vs (λ v' a. h v' (rw a (||_true (text_eq v.include v'.include)))) in
      rw (here, later) refl

  or_intro : (a c : Bool) → (a ≡ true → c ≡ true) → (not a || c) ≡ true
  or_intro true c h = h refl
  or_intro false c h = refl

  -- Where planRestore succeeds, each write takes one include back to the version of that same include
  -- that stands right behind the newest run of versions of the transports; and the include of every
  -- version is among those written, or has no version of one of the transports.
  pub plan_restore-GoesBack :
      (writes : List SourceWrite)
      → plan_restore versions transports ≡ ok writes
      → All GoesBack writes × (all (is_covered writes) versions ≡ true)
  unfolding plan_restore
  plan_restore-GoesBack writes h =
      let p =
        plan_includes-Planned (includes_in_order [] versions) writes (some_writes-ok _ writes h) in
      (
        p.go_back,
        covered writes versions (λ v a.
            or_intro (touched v.include) (writes_to writes v.include)
              (λ t. p.complete v.include (includes_in_order-any v.include [] versions a refl) t)),
      )
