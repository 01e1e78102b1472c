-- ===== src/FunctionStore/Files/Relative.antt =====
-- Paths relative to the working directory, and under it.
use b7s.Common.{true, false, List, [], ◌∷◌, ◌++◌, ◌==◌, ◌≡◌, refl, sym, ap, ◌∙◌, All, arith}
use mathlib.Core.List.{append_assoc, append-nil}
use b7s.Common.Text.{Text, text_eq, has_prefix, has_prefix-append, codes}
use b7s.Common.Path.{split, resolve, render, clean, clean_any, join_parts, join}
use b7s.Common.Path.Place.{
  IsPlain, place, place-under, place-render, clean-place, join-name, render-not_empty,
  split_from-append, split_from-plain, resolve-append, resolve-one, resolve-nothing,
}
use b7s.FunctionStore.Outside.{Outside}
use b7s.FunctionStore.Files.{after_prefix, trim_prefix, clean_path}

-- A path that starts with a slash, in a directory.
resolve-render :
    (names stack : List Text)
    → All IsPlain names
    → resolve (split (render names)) stack ≡ names ++ stack
unfolding render
resolve-render [] stack h = resolve-nothing stack
resolve-render (name ∷ names) stack h =
    ap (λ r. resolve r stack) (split_from-append [] (render names) name)
    ∙ resolve-append (split (render names)) (split name) stack
    ∙ ap (λ r. resolve r (resolve (split (render names)) stack))
        (split_from-plain [] name h.0.no_slash)
    ∙ resolve-one name (resolve (split (render names)) stack) h.0
    ∙ ap (λ r. name ∷ r) (resolve-render names stack h.1)

render-append : (xs ys : List Text) → render (xs ++ ys) ≡ render ys ++ render xs
unfolding render
render-append [] ys = sym (append-nil (render ys))
render-append (x ∷ xs) ys =
    ap (λ r. r ++ b'/' ∷ x) (render-append xs ys) ∙ append_assoc (render ys) (render xs) (b'/' ∷ x)

clean-render :
    (name : Text) (names : List Text)
    → All IsPlain (name ∷ names)
    → clean (render (name ∷ names)) ≡ render (name ∷ names)
clean-render name names h =
    clean-place (render (name ∷ names)) name names (place-render (name ∷ names) h)

has_prefix_self : (s t : Text) → has_prefix s (s ++ t) ≡ true
unfolding has_prefix
has_prefix_self [] t = refl
has_prefix_self (b ∷ s) t = ground (arith, has_prefix_self s t)

after_prefix_self : (s t : Text) → after_prefix s (s ++ t) ≡ t
unfolding after_prefix
after_prefix_self [] t = refl
after_prefix_self (b ∷ s) t = after_prefix_self s t

trim_prefix_self : (s t : Text) → trim_prefix (s ++ t) s ≡ t
unfolding trim_prefix
trim_prefix_self s t = rw (has_prefix_self s t) (after_prefix_self s t)

slash_first :
    (names : List Text) (name : Text) → has_prefix (codes "/") (render (name ∷ names)) ≡ true
unfolding render has_prefix
slash_first [] name = refl
slash_first (last ∷ names) name =
    has_prefix-append (codes "/") (render (last ∷ names)) (b'/' ∷ name) (slash_first names last)

-- The working directory is absolute, clean, and not the root.
module _ (o : Outside) (last : Text) (earlier : List Text) (w : o.workdir ≡ render (last ∷ earlier))
    (plain : All IsPlain (last ∷ earlier)) where
  -- A path under the working directory is made relative to it.
  pub clean_path-under :
      (name : Text) (names : List Text)
      → All IsPlain (name ∷ names)
      → clean_path o (render ((name ∷ names) ++ last ∷ earlier)) ≡ render (name ∷ names)
  unfolding clean_path clean_any
  clean_path-under name names h =
      ap (λ t. clean_any (trim_prefix t o.workdir))
        (render-append (name ∷ names) (last ∷ earlier)
          ∙ ap (λ v. v ++ render (name ∷ names)) (sym w))
      ∙ ap clean_any (trim_prefix_self o.workdir (render (name ∷ names)))
      ∙ rw (slash_first names name) (clean-render name names h)

  -- One that is relative already stays, if it does not begin like the working directory.
  pub clean_path-relative :
      (name : Text) (names : List Text)
      → All IsPlain (name ∷ names)
      → has_prefix o.workdir (render (name ∷ names)) ≡ false
      → clean_path o (render (name ∷ names)) ≡ render (name ∷ names)
  unfolding clean_path clean_any trim_prefix
  clean_path-relative name names h n = rw (n, slash_first names name) (clean-render name names h)

  workdir-place : place o.workdir ≡ last ∷ earlier
  workdir-place = ap place w ∙ place-render (last ∷ earlier) plain

  workdir-given : (o.workdir == []) ≡ false
  workdir-given = ap (λ t. t == []) w ∙ render-not_empty last earlier

  pub join-relative :
      (name : Text) (names : List Text)
      → All IsPlain (name ∷ names)
      → join (o.workdir ∷ render (name ∷ names) ∷ []) ≡ render ((name ∷ names) ++ last ∷ earlier)
  unfolding join join_parts
  join-relative name names h =
      let t = render (name ∷ names) in
      ap clean (rw (workdir-given, render-not_empty name names) refl)
      ∙ clean-place (o.workdir ++ b'/' ∷ (t ++ b'/' ∷ [])) name (names ++ last ∷ earlier) (
          place-under o.workdir (t ++ b'/' ∷ [])
          ∙ ap (λ r. resolve r (place o.workdir)) (split_from-append [] t [])
          ∙ resolve-append (split t) (split []) (place o.workdir)
          ∙ resolve-nothing (resolve (split t) (place o.workdir))
          ∙ ap (resolve (split t)) workdir-place
          ∙ resolve-render (name ∷ names) (last ∷ earlier) h)

  -- The directory of a function.
  pub join-cid :
      (cid : Text) → IsPlain cid → join (o.workdir ∷ cid ∷ []) ≡ render (cid ∷ last ∷ earlier)
  join-cid cid p =
      join-name o.workdir cid workdir-given p ∙ ap (λ r. render (cid ∷ r)) workdir-place
