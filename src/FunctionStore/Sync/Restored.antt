-- ===== src/FunctionStore/Sync/Restored.antt =====
-- What a sync restores.
use b7s.Common.{
  true, false, List, [], ◌∷◌, none, some, ◌≡◌, ◌⊎◌, inl, inr, refl, sym, ap, subst, ◌∙◌, All,
  Bool-cases, Option-cases,
}
use b7s.Common.Text.{Text, has_prefix}
use b7s.Common.Outcome.{Outcome, ok, err}
use b7s.Common.Hex.{decode}
use b7s.Common.Path.{render, join}
use b7s.Common.Path.Place.{IsPlain}
use b7s.Models.{FunctionManifest, FunctionRecord}
use b7s.FunctionStore.Outside.{Outside, Stat, present, absent, stat_failed, Laws}
use b7s.FunctionStore.Archive.{make_dir}
use b7s.FunctionStore.World.{State, mkdir_all, retrieve}
use b7s.FunctionStore.Files.{clean_path, download, check_function_files}
use b7s.FunctionStore.Files.Relative.{clean_path-under, join-relative, join-cid}
use b7s.FunctionStore.Install.{is_installed}
use b7s.FunctionStore.Sync.Unpacked.{
  IsComplete, IsComplete-is_installed, unpack_and_save-IsComplete,
}
use b7s.FunctionStore.Sync.{
  SyncError, not_downloaded, not_verified, unpack_and_save, download_again, sync,
}

module _ (o : Outside) (l : Laws o) (last : Text) (earlier : List Text)
    (w : o.workdir ≡ render (last ∷ earlier)) (plain : All IsPlain (last ∷ earlier)) where
  -- A download is a file in the directory of the function.
  download-file :
      (cid : Text) (manifest : FunctionManifest) (s : State o) (file : Text)
      → IsPlain cid
      → (download o cid manifest s).0 ≡ some file
      → (name : Text) × IsPlain name
        × (file ≡ render (name ∷ cid ∷ last ∷ earlier))
        × (o.stat file (download o cid manifest s).1.0 ≡ present)
  unfolding download mkdir_all
  download-file cid manifest s file p h =
      let dir = join (o.workdir ∷ cid ∷ []) in
      let made = o.touch (make_dir dir) s.0 in
      elim (Bool-cases ((o.files s.0).makes_dir dir)) [
        | inl y ↦ elim (Option-cases (decode manifest.deployment.checksum)) [
          | inl n ↦ absurd (refuted (sym (nothing (rw (download, y, n) refl)) ∙ h))
          | inr (sum, e) ↦ grabbed manifest.deployment.uri sum y (rw (download, y, e) refl)
        ]
        | inr n ↦ absurd (refuted (sym (nothing (rw (download, n) refl)) ∙ h))
      ]
    where
      refuted : none ≡ some file → ⊥
      refuted e = cc

      nothing : (download o cid manifest s).0 ≡ none → (download o cid manifest s).0 ≡ none
      nothing e = e

      grabbed :
          (uri sum : Text)
          → (o.files s.0).makes_dir (join (o.workdir ∷ cid ∷ [])) ≡ true
          → let dir = join (o.workdir ∷ cid ∷ []) in
            let (got, after) = o.grab dir uri sum (o.touch (make_dir dir) s.0) in
            download o cid manifest s ≡ (got, (after, s.1))
            → (name : Text) × IsPlain name
              × (file ≡ render (name ∷ cid ∷ last ∷ earlier))
              × (o.stat file (download o cid manifest s).1.0 ≡ present)
      grabbed uri sum y e =
          let at = join-cid o last earlier w plain cid p in
          let got = sym (ap (λ r. r.0) e) ∙ h in
          let (name, q, f) =
            l.grab_name cid (last ∷ earlier) uri sum file s.0 (p, plain)
              (ap (o.files s.0).makes_dir (sym at) ∙ y)
              (ap (λ d. (o.grab d uri sum (o.touch (make_dir d) s.0)).0) (sym at) ∙ got) in
          (name, q, f, ap (λ r. o.stat file r.1.0) e ∙ l.grab_present _ uri sum file _ got)

  download_again-IsComplete :
      (fn : FunctionRecord) (s after : State o)
      → IsPlain fn.cid
      → ((name : Text) → IsPlain name → has_prefix o.workdir (render (name ∷ fn.cid ∷ [])) ≡ false)
      → download_again o fn s ≡ (ok tt, after)
      → IsComplete o fn.cid after
  unfolding download_again
  download_again-IsComplete fn s after p n h =
      elim (Option-cases (download o fn.cid fn.manifest s).0) [
        | inl e ↦
            absurd
              (refuted (download o fn.cid fn.manifest s).1 (sym (rw (download_again, e) refl) ∙ h))
        | inr (file, e) ↦
            let (name, q, at, here) = download-file fn.cid fn.manifest s file p e in
            let cleaned =
              ap (clean_path o) at
              ∙ clean_path-under o last earlier w plain name (fn.cid ∷ []) (q, (p, tt)) in
            unpack_and_save-IsComplete o l last earlier w plain
              (record fn { archive = clean_path o file }) name (download o fn.cid fn.manifest s).1
              after p q cleaned (n name q)
              (ap (λ t. o.stat t (download o fn.cid fn.manifest s).1.0)
                  (ap (λ t. join (o.workdir ∷ t ∷ [])) cleaned
                    ∙ join-relative o last earlier w plain name (fn.cid ∷ []) (q, (p, tt))
                    ∙ sym at)
                ∙ here)
              (sym (rw (download_again, e) refl) ∙ h)
      ]
    where
      refuted :
          (t : State o)
          → Path (Outcome SyncError (Unit {0}) × State o) (err not_downloaded, t) (ok tt, after)
          → ⊥
      refuted t e = cc

  module _ (fn : FunctionRecord) (s after : State o) where
    nothing_done : sync o fn s ≡ (ok tt, after) → sync o fn s ≡ (ok tt, s) → after ≡ s
    nothing_done h e = ap (λ r. r.1) (sym h ∙ e)

    unverified :
        {X : Type 0} → sync o fn s ≡ (ok tt, after) → sync o fn s ≡ (err not_verified, s) → X
    unverified h e = absurd (refuted (sym e ∙ h))
      where
        refuted :
            Path (Outcome SyncError (Unit {0}) × State o) (err not_verified, s) (ok tt, after) → ⊥
        refuted e = cc

    checked :
        (archive files : Stat)
        → o.stat (join (o.workdir ∷ fn.archive ∷ [])) s.0 ≡ archive
        → o.stat (join (o.workdir ∷ fn.files ∷ [])) s.0 ≡ files
        → sync o fn s ≡ (ok tt, after)
        → ((archive ≡ present) × (files ≡ present) × (after ≡ s))
          ⊎ ((archive ≡ present) × (unpack_and_save o fn s ≡ (ok tt, after)))
          ⊎ (download_again o fn s ≡ (ok tt, after))
    unfolding sync check_function_files
    checked present present a f h = inl (refl, refl, nothing_done h (rw (sync, a, f) refl))
    checked present absent a f h = inr (inl (refl, sym (rw (sync, a, f) refl) ∙ h))
    checked absent present a f h = inr (inr (sym (rw (sync, a, f) refl) ∙ h))
    checked absent absent a f h = inr (inr (sym (rw (sync, a, f) refl) ∙ h))
    checked stat_failed files a f h = unverified h (rw (sync, a) refl)
    checked present stat_failed a f h = unverified h (rw (sync, a, f) refl)
    checked absent stat_failed a f h = unverified h (rw (sync, a, f) refl)

-- If the working directory is a clean absolute path and not the root; if the CID of a function and
-- the name of its archive are plain names; if its record, as it is in the store, has the archive at
-- a path relative to the working directory; and if no such path begins with the working directory
-- as a text: after a sync of the function that ends without an error, whatever was missing before,
-- the store has a record of it, the archive and the files that this record names are on the disk,
-- and the function counts as installed.
pub sync-IsComplete :
    (o : Outside) (l : Laws o) (last : Text) (earlier : List Text)
    → o.workdir ≡ render (last ∷ earlier)
    → All IsPlain (last ∷ earlier)
    → (fn : FunctionRecord) (name : Text) (s after : State o) → IsPlain fn.cid
    → IsPlain name
    → fn.archive ≡ render (name ∷ fn.cid ∷ [])
    → ((other : Text) → IsPlain other → has_prefix o.workdir (render (other ∷ fn.cid ∷ [])) ≡ false)
    → retrieve o fn.cid s ≡ ok fn
    → sync o fn s ≡ (ok tt, after)
    → IsComplete o fn.cid after × (is_installed o fn.cid after ≡ ok true)
sync-IsComplete o l last earlier w plain fn name s after p q e n r h =
    let complete : IsComplete o fn.cid after =
      elim (checked o l last earlier w plain fn s after _ _ refl refl h) [
        | inl (a, f, same) ↦ subst (IsComplete o fn.cid) (sym same) (fn, r, a, f)
        | inr (inl (a, unpacks)) ↦
            unpack_and_save-IsComplete o l last earlier w plain fn name s after p q e (n name q) a
              unpacks
        | inr (inr downloads) ↦
            download_again-IsComplete o l last earlier w plain fn s after p n downloads
      ] in
    (complete, IsComplete-is_installed o fn.cid after complete)
