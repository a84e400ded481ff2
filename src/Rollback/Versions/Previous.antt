-- ===== src/Rollback/Versions/Previous.antt =====
-- Which version findPreTransportVersion chooses.
use adtler.Prelude.{
  ◌≡◌, ◌≢◌, ◌↔◌, ◌∙◌, refl, ap, inl, inr, Bool, true, false, List, [], ◌∷◌, ◌++◌, all, any, Text,
  &&_true, ||_false, Bool-cases,
}
use adtler.Adt.{ok, VersionInfo}
use adtler.Rollback.Versions.{carries, scan_versions, found_version, find_pre_transport_version}

module _ (transports : List Text) where
  -- Behind versions of the transports comes one of none of them, with this URI.
  pub record Behind (versions : List VersionInfo) (uri : Text) : Type 0 where
    pub used : List VersionInfo
    pub previous : VersionInfo
    pub older : List VersionInfo
    pub split : versions ≡ used ++ (previous ∷ older)
    pub all_used : all (carries transports) used ≡ true
    pub other : carries transports previous ≡ false
    pub at_uri : previous.content_uri ≡ uri

  -- The version behind the newest run of versions of the transports.
  pub record Previous (versions : List VersionInfo) (uri : Text) : Type 0 where
    pub newer : List VersionInfo
    pub last : VersionInfo
    pub rest : List VersionInfo
    pub split : versions ≡ newer ++ (last ∷ rest)
    pub none_newer : any (carries transports) newer ≡ false
    pub carried : carries transports last ≡ true
    pub behind : Behind rest uri

  seen-Behind :
      (versions : List VersionInfo) (uri : Text)
      → uri ≢ []
      → scan_versions transports true versions ≡ (true, uri)
      → Behind versions uri
  unfolding scan_versions
  seen-Behind [] uri k h = absurd (k (cc))
  seen-Behind (v ∷ versions) uri k h = elim (Bool-cases (carries transports v)) [
    | inl x ↦
        let b = seen-Behind versions uri k (rw x at h) in
        record {
          used = v ∷ b.used;
          previous = b.previous;
          older = b.older;
          split = ap (λ t. v ∷ t) b.split;
          all_used = rw x b.all_used;
          other = b.other;
          at_uri = b.at_uri;
        }
    | inr x ↦ record {
      used = [];
      previous = v;
      older = versions;
      split = refl;
      all_used = refl;
      other = x;
      at_uri = ap (λ t. t.1) (rw x at h);
    }
  ]

  Behind-seen :
      (used : List VersionInfo) (v : VersionInfo) (older : List VersionInfo)
      → all (carries transports) used ≡ true
      → carries transports v ≡ false
      → scan_versions transports true (used ++ (v ∷ older)) ≡ (true, v.content_uri)
  unfolding scan_versions
  Behind-seen [] v older a o = rw o refl
  Behind-seen (u ∷ used) v older a o =
      let (x, y) = &&_true (carries transports u) (all (carries transports) used) a in
      rw x (Behind-seen used v older y o)

  unseen-Previous :
      (versions : List VersionInfo) (uri : Text)
      → uri ≢ []
      → scan_versions transports false versions ≡ (true, uri)
      → Previous versions uri
  unfolding scan_versions
  unseen-Previous [] uri k h = absurd (cc (ap (λ t. t.0) h))
  unseen-Previous (v ∷ versions) uri k h = elim (Bool-cases (carries transports v)) [
    | inl x ↦ record {
      newer = [];
      last = v;
      rest = versions;
      split = refl;
      none_newer = refl;
      carried = x;
      behind = seen-Behind versions uri k (rw x at h);
    }
    | inr x ↦
        let p = unseen-Previous versions uri k (rw x at h) in
        record {
          newer = v ∷ p.newer;
          last = p.last;
          rest = p.rest;
          split = ap (λ t. v ∷ t) p.split;
          none_newer = rw x p.none_newer;
          carried = p.carried;
          behind = p.behind;
        }
  ]

  Previous-unseen :
      (newer : List VersionInfo) (last : VersionInfo) (rest : List VersionInfo) (uri : Text)
      → any (carries transports) newer ≡ false
      → carries transports last ≡ true
      → scan_versions transports true rest ≡ (true, uri)
      → scan_versions transports false (newer ++ (last ∷ rest)) ≡ (true, uri)
  unfolding scan_versions
  Previous-unseen [] last rest uri n c h = rw c h
  Previous-unseen (v ∷ newer) last rest uri n c h =
      let (x, y) = ||_false (carries transports v) (any (carries transports) newer) n in
      rw x (Previous-unseen newer last rest uri y c h)

  found_version-ok :
      (r : Bool × Text) (uri : Text) → found_version r ≡ ok uri → (r ≡ (true, uri)) × (uri ≢ [])
  unfolding found_version
  found_version-ok (false, u) uri h = absurd (cc h)
  found_version-ok (true, []) uri h = absurd (cc h)
  found_version-ok (true, c ∷ u) uri h = (cc, λ e. cc)

  found_version-nonempty : (uri : Text) → uri ≢ [] → found_version (true, uri) ≡ ok uri
  unfolding found_version
  found_version-nonempty [] k = absurd (k refl)
  found_version-nonempty (c ∷ u) k = refl

  -- findPreTransportVersion returns the URI of the version that stands right behind the newest run of
  -- versions of the transports, where there is such a version and its URI is not empty, and no URI
  -- otherwise.
  pub find_pre_transport_version_lem :
      (versions : List VersionInfo) (uri : Text)
      → (find_pre_transport_version versions transports ≡ ok uri)
        ↔ (Previous versions uri × (uri ≢ []))
  unfolding find_pre_transport_version
  find_pre_transport_version_lem versions uri = (
    λ h.
        let (e, k) = found_version-ok (scan_versions transports false versions) uri h in
        (unseen-Previous versions uri k e, k),
    λ (p, k).
        let seen =
          Behind-seen p.behind.used p.behind.previous p.behind.older p.behind.all_used
            p.behind.other in
        let found =
          Previous-unseen p.newer p.last (p.behind.used ++ (p.behind.previous ∷ p.behind.older))
            p.behind.previous.content_uri p.none_newer p.carried seen in
        let whole = p.split ∙ ap (λ t. p.newer ++ (p.last ∷ t)) p.behind.split in
        let scanned =
          ap (scan_versions transports false) whole
          ∙ (found ∙ ap (λ u. (true, u)) p.behind.at_uri) in
        ap found_version scanned ∙ found_version-nonempty uri k,
  )
