-- ===== src/Common/Path/Place.antt =====
-- The directory that a path leads to.
use b7s.Common.{
  ℕ, false, List, [], ◌∷◌, ◌++◌, ◌==◌, nat_eq, nat_beq, All-append, ◌≡◌, refl, ap, subst, ◌∙◌, All,
  Bool-cases, inl, inr,
}
use mathlib.Core.List.{append_assoc, append-nil}
use b7s.Common.Text.{Text, text_eq, text_beq, codes}
use b7s.Common.Path.{split_from, split, enter, resolve, render, clean, join_parts, join}

-- A name of a single part that means itself.
pub record IsPlain (name : Text) : Type 0 where
  pub no_slash : All (λ b. nat_beq b b'/' ≡ false) name
  pub not_empty : (name == []) ≡ false
  pub not_here : (name == codes ".") ≡ false
  pub not_above : (name == codes "..") ≡ false

pub split_from-append :
    (part path rest : Text)
    → split_from part (path ++ b'/' ∷ rest) ≡ split_from part path ++ split_from [] rest
unfolding split_from
split_from-append part [] rest = refl
split_from-append part (b ∷ path) rest = elim (Bool-cases (nat_beq b b'/')) [
  | inl y ↦ rw y (ap (λ r. part ∷ r) (split_from-append [] path rest))
  | inr n ↦ rw n (split_from-append (part ++ b ∷ []) path rest)
]

pub split_from-plain :
    (part name : Text)
    → All (λ b. nat_beq b b'/' ≡ false) name
    → split_from part name ≡ (part ++ name) ∷ []
unfolding split_from
split_from-plain part [] h = rw (append-nil part) refl
split_from-plain part (b ∷ name) h = rw h.0 (
    split_from-plain (part ++ b ∷ []) name h.1 ∙ ap (λ x. x ∷ []) (append_assoc part (b ∷ []) name))

pub resolve-append :
    (xs ys stack : List Text) → resolve (xs ++ ys) stack ≡ resolve ys (resolve xs stack)
unfolding resolve
resolve-append [] ys stack = refl
resolve-append (x ∷ xs) ys stack = resolve-append xs ys (enter x stack)

enter-plain : (name : Text) (stack : List Text) → IsPlain name → enter name stack ≡ name ∷ stack
unfolding enter
enter-plain name stack p = rw (p.not_empty, p.not_here, p.not_above) refl

-- The parts of the directory that a path leads to, the last first.
abbrev pub place : Text → List Text
place path = resolve (split path) []

-- A directory and a path under it.
pub place-under :
    (path rest : Text) → place (path ++ b'/' ∷ rest) ≡ resolve (split rest) (place path)
place-under path rest =
    ap (λ r. resolve r []) (split_from-append [] path rest)
    ∙ resolve-append (split path) (split rest) []

-- A name and a slash after it.
resolve-name :
    (name rest : Text) (stack : List Text)
    → IsPlain name
    → resolve (split (name ++ b'/' ∷ rest)) stack ≡ resolve (split rest) (name ∷ stack)
unfolding resolve
resolve-name name rest stack p =
    ap (λ r. resolve r stack) (split_from-append [] name rest)
    ∙ resolve-append (split name) (split rest) stack
    ∙ ap (λ r. resolve (split rest) (resolve r stack)) (split_from-plain [] name p.no_slash)
    ∙ ap (resolve (split rest)) (enter-plain name stack p)

pub resolve-nothing : (stack : List Text) → resolve (split []) stack ≡ stack
unfolding resolve split_from enter text_beq
resolve-nothing stack = refl

pub resolve-one :
    (name : Text) (stack : List Text) → IsPlain name → resolve (name ∷ []) stack ≡ name ∷ stack
unfolding resolve
resolve-one name stack p = enter-plain name stack p

-- A path that is rendered leads to its place.
pub place-render : (stack : List Text) → All IsPlain stack → place (render stack) ≡ stack
unfolding render
place-render [] h = resolve-nothing []
place-render (name ∷ stack) h =
    place-under (render stack) name
    ∙ ap (λ r. resolve r (place (render stack))) (split_from-plain [] name h.0.no_slash)
    ∙ resolve-one name (place (render stack)) h.0
    ∙ ap (λ r. name ∷ r) (place-render stack h.1)

abbrev pub HasNoSlash : Text → Type 0
HasNoSlash part = All (λ b. nat_beq b b'/' ≡ false) part

split_from-HasNoSlash : (part path : Text) → HasNoSlash part → All HasNoSlash (split_from part path)
unfolding split_from
split_from-HasNoSlash part [] h = (h, tt)
split_from-HasNoSlash part (b ∷ path) h = elim (Bool-cases (nat_beq b b'/')) [
  | inl y ↦ rw y (h, split_from-HasNoSlash [] path tt)
  | inr n ↦ rw n (
      split_from-HasNoSlash (part ++ b ∷ []) path
        (All-append (λ c. nat_beq c b'/' ≡ false) part (b ∷ []) h (n, tt)))
]

enter-IsPlain :
    (part : Text) (stack : List Text)
    → HasNoSlash part
    → All IsPlain stack
    → All IsPlain (enter part stack)
unfolding enter
enter-IsPlain part stack h all = elim (Bool-cases (part == [])) [
  | inl y ↦ rw y all
  | inr e ↦ elim (Bool-cases (part == codes ".")) [
    | inl y ↦ rw (e, y) all
    | inr d ↦ elim (Bool-cases (part == codes "..")) [
      | inl y ↦ rw (e, d, y) (above stack all)
      | inr u ↦
          rw (e, d, u) (record { no_slash = h; not_empty = e; not_here = d; not_above = u }, all)
    ]
  ]
]
  where
    above :
        (stack : List Text)
        → All IsPlain stack
        → All IsPlain (elim stack [ [] ↦ [] | last ∷ earlier ↦ earlier ])
    above [] all = tt
    above (last ∷ earlier) all = all.1

resolve-IsPlain :
    (parts stack : List Text)
    → All HasNoSlash parts
    → All IsPlain stack
    → All IsPlain (resolve parts stack)
unfolding resolve
resolve-IsPlain [] stack h all = all
resolve-IsPlain (part ∷ parts) stack h all =
    resolve-IsPlain parts (enter part stack) h.1 (enter-IsPlain part stack h.0 all)

pub place-IsPlain : (path : Text) → All IsPlain (place path)
place-IsPlain path = resolve-IsPlain (split path) [] (split_from-HasNoSlash [] path tt) tt

pub clean-place :
    (path last : Text) (earlier : List Text)
    → place path ≡ last ∷ earlier
    → clean path ≡ render (last ∷ earlier)
unfolding clean
clean-place path last earlier h = rw (clean, h) refl

-- A name is joined to a directory.
pub join-name :
    (dir name : Text)
    → (dir == []) ≡ false
    → IsPlain name
    → join (dir ∷ name ∷ []) ≡ render (name ∷ place dir)
unfolding join join_parts
join-name dir name d p =
    ap clean (rw (d, p.not_empty) refl)
    ∙ clean-place (dir ++ b'/' ∷ (name ++ b'/' ∷ [])) name (place dir) (
        place-under dir (name ++ b'/' ∷ [])
        ∙ resolve-name name [] (place dir) p
        ∙ resolve-nothing (name ∷ place dir))

append-not_empty : (s t : Text) (b : ℕ) → ((s ++ b ∷ t) == []) ≡ false
unfolding text_beq
append-not_empty [] t b = refl
append-not_empty (c ∷ s) t b = refl

pub render-not_empty : (name : Text) (stack : List Text) → (render (name ∷ stack) == []) ≡ false
unfolding render
render-not_empty name stack = append-not_empty (render stack) name b'/'

pub join-names :
    (dir first second : Text)
    → (dir == []) ≡ false
    → IsPlain first
    → IsPlain second
    → join (dir ∷ first ∷ second ∷ []) ≡ render (second ∷ first ∷ place dir)
unfolding join join_parts
join-names dir first second d p q =
    ap clean (rw (d, p.not_empty, q.not_empty) refl)
    ∙ clean-place (dir ++ b'/' ∷ (first ++ b'/' ∷ (second ++ b'/' ∷ []))) second (first ∷ place dir)
        (place-under dir (first ++ b'/' ∷ (second ++ b'/' ∷ []))
          ∙ resolve-name first (second ++ b'/' ∷ []) (place dir) p
          ∙ resolve-name second [] (first ∷ place dir) q
          ∙ resolve-nothing (second ∷ first ∷ place dir))

clean_at : (path : Text) (stack : List Text) → place path ≡ stack → place (clean path) ≡ stack
unfolding clean split_from resolve enter text_beq
clean_at path [] h = rw (clean, h) refl
clean_at path (last ∷ earlier) h =
    ap place (clean-place path last earlier h)
    ∙ place-render (last ∷ earlier) (subst (All IsPlain) h (place-IsPlain path))

-- A cleaned path leads to the same place.
pub place-clean : (path : Text) → place (clean path) ≡ place path
place-clean path = clean_at path (place path) refl
