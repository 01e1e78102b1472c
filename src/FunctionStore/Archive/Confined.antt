-- ===== src/FunctionStore/Archive/Confined.antt =====
-- Where an archive is unpacked to.
use b7s.Common.{
  true, false, List, [], ◌∷◌, ◌++◌, Option, none, some, ◌==◌, ◌≡◌, refl, sym, ap, subst, ◌∙◌, All,
  All-append, Bool-cases, Option-cases, inl, inr, nat_beq, arith,
}
use mathlib.Core.List.{append_assoc}
use b7s.Common.Text.{Text, text_eq, text_beq, text_beq_iff, has_prefix, has_prefix-append, codes}
use b7s.Common.Outcome.{ok, err}
use b7s.Common.Path.{split_from, split, enter, resolve, clean, join_parts, join}
use b7s.Common.Path.Place.{place, place-clean, place-under, split_from-append}
use b7s.FunctionStore.Archive.{
  contains, EntryType, type_dir, type_reg, type_other, Entry, Touch, target, Files, Unpacked,
  unpack_file, unpack_entry, then_rest, unpack_entries, open_archive, unpack_archive,
}

-- The parts of a place, the last first, lie under those of a base.
abbrev IsUnder : List Text → List Text → Type 0
IsUnder base stack = (names : List Text) × (stack ≡ names ++ base)

-- A path leads to the destination or to a place under it.
abbrev pub IsInside : Text → Text → Type 0
IsInside destination path = IsUnder (place destination) (place path)

contains-left : (s t sub : Text) → contains s sub ≡ true → contains (s ++ t) sub ≡ true
unfolding contains
contains-left [] [] sub h = h
contains-left [] (b ∷ t) sub h = ground (arith, has_prefix-append sub [] (b ∷ t))
contains-left (b ∷ s) t sub h =
    ground (arith, has_prefix-append sub (b ∷ s) t, contains-left s t sub)

contains-right : (s t sub : Text) → contains t sub ≡ true → contains (s ++ t) sub ≡ true
unfolding contains
contains-right [] t sub h = h
contains-right (b ∷ s) t sub h = ground (arith, contains-right s t sub h)

-- A part that is not `..`.
abbrev IsDown : Text → Type 0
IsDown part = (part == codes "..") ≡ false

no_dots : (s : Text) → contains s (codes "..") ≡ false → IsDown s
unfolding contains has_prefix
no_dots s h = elim (Bool-cases (s == codes "..")) [
  | inl y ↦
      absurd (subst (λ t. contains t (codes "..") ≡ false) ((text_beq_iff s (codes "..")).0 y) h)
  | inr n ↦ n
]
  where
    absurd : contains (codes "..") (codes "..") ≡ false → IsDown s
    absurd e = cc

left_free : (s t sub : Text) → contains (s ++ t) sub ≡ false → contains s sub ≡ false
left_free s t sub h = ground (arith, contains-left s t sub)

right_free : (s t sub : Text) → contains (s ++ t) sub ≡ false → contains t sub ≡ false
right_free s t sub h = ground (arith, contains-right s t sub)

split_from-IsDown :
    (part path : Text)
    → contains (part ++ path) (codes "..") ≡ false
    → All IsDown (split_from part path)
unfolding split_from
split_from-IsDown part [] h = (no_dots part (left_free part [] (codes "..") h), tt)
split_from-IsDown part (b ∷ path) h = elim (Bool-cases (nat_beq b b'/')) [
  | inl y ↦ rw y (
    no_dots part (left_free part (b ∷ path) (codes "..") h),
    split_from-IsDown [] path
        (right_free (b ∷ []) path (codes "..") (right_free part (b ∷ path) (codes "..") h)),
  )
  | inr n ↦ rw n (
      split_from-IsDown (part ++ b ∷ []) path
        (ap (λ s. contains s (codes "..")) (append_assoc part (b ∷ []) path) ∙ h))
]

enter-IsUnder :
    (base stack : List Text) (part : Text)
    → IsDown part
    → IsUnder base stack
    → IsUnder base (enter part stack)
unfolding enter
enter-IsUnder base stack part d (names, h) = elim (Bool-cases (part == [])) [
  | inl y ↦ rw y (names, h)
  | inr e ↦ elim (Bool-cases (part == codes ".")) [
    | inl y ↦ rw (e, y) (names, h)
    | inr n ↦ rw (e, n, d) (part ∷ names, ap (λ r. part ∷ r) h)
  ]
]

resolve-IsUnder :
    (base stack parts : List Text)
    → All IsDown parts
    → IsUnder base stack
    → IsUnder base (resolve parts stack)
unfolding resolve
resolve-IsUnder base stack [] d u = u
resolve-IsUnder base stack (part ∷ parts) d u =
    resolve-IsUnder base (enter part stack) parts d.1 (enter-IsUnder base stack part d.0 u)

under-IsInside :
    (destination rest : Text)
    → All IsDown (split rest)
    → IsInside destination (clean (destination ++ b'/' ∷ rest))
under-IsInside destination rest d =
    subst (IsUnder (place destination))
      (sym (place-clean (destination ++ b'/' ∷ rest) ∙ place-under destination rest))
      (resolve-IsUnder (place destination) (place destination) (split rest) d ([], refl))

closed-IsDown :
    (name : Text) → contains name (codes "..") ≡ false → All IsDown (split (name ++ b'/' ∷ []))
unfolding split_from text_beq
closed-IsDown name h =
    subst (All IsDown) (sym (split_from-append [] name []))
      (All-append IsDown (split name) (split []) (split_from-IsDown [] name h) (refl, tt))

-- The name of an entry is joined to the destination.
join-IsInside :
    (destination name : Text)
    → (destination == []) ≡ false
    → contains name (codes "..") ≡ false
    → IsInside destination (join (destination ∷ name ∷ []))
unfolding join join_parts split_from text_beq
join-IsInside destination name d h = elim (Bool-cases (name == [])) [
  | inl y ↦ rw (d, y) (under-IsInside destination [] (refl, tt))
  | inr n ↦ rw (d, n) (under-IsInside destination (name ++ b'/' ∷ []) (closed-IsDown name h))
]

AllInside : Text → List Touch → Type 0
AllInside destination touched = All (λ t. IsInside destination (target t)) touched

module _ (files : Files) (destination : Text) (d : (destination == []) ≡ false) where
  unpack_file-AllInside :
      (file content : Text)
      → IsInside destination file
      → AllInside destination (unpack_file files file content).1
  unfolding unpack_file AllInside
  unpack_file-AllInside file content u = elim (Bool-cases (files.creates file)) [
    | inl y ↦ rw y (u, (u, tt))
    | inr n ↦ rw n (u, tt)
  ]

  typed-AllInside :
      (entry : Entry) (typ : EntryType)
      → entry.typ ≡ typ
      → contains entry.name (codes "..") ≡ false
      → AllInside destination (unpack_entry files destination entry).1
  unfolding unpack_entry AllInside
  typed-AllInside entry type_dir e h = rw (h, e) (join-IsInside destination entry.name d h, tt)
  typed-AllInside entry type_reg e h =
      rw (h, e) (unpack_file-AllInside _ entry.content (join-IsInside destination entry.name d h))
  typed-AllInside entry type_other e h = rw (h, e) tt

  unpack_entry-AllInside :
      (entry : Entry) → AllInside destination (unpack_entry files destination entry).1
  unfolding unpack_entry AllInside
  unpack_entry-AllInside entry = elim (Bool-cases (contains entry.name (codes ".."))) [
    | inl y ↦ rw y tt
    | inr n ↦ typed-AllInside entry entry.typ refl n
  ]

  then_rest-AllInside :
      (first rest : Unpacked)
      → AllInside destination first.1
      → AllInside destination rest.1
      → AllInside destination (then_rest files first rest).1
  unfolding AllInside
  then_rest-AllInside (ok _, touched) rest f r = All-append _ touched rest.1 f r
  then_rest-AllInside (err e, touched) rest f r = f

  unpack_entries-AllInside :
      (entries : List (Option Entry))
      → AllInside destination (unpack_entries files destination entries).1
  unfolding unpack_entries AllInside
  unpack_entries-AllInside [] = tt
  unpack_entries-AllInside (none ∷ entries) = tt
  unpack_entries-AllInside (some entry ∷ entries) =
      then_rest-AllInside (unpack_entry files destination entry) _ (unpack_entry-AllInside entry)
        (unpack_entries-AllInside entries)

  open_archive-AllInside :
      (filename : Text) → AllInside destination (open_archive files filename destination).1
  unfolding open_archive AllInside
  open_archive-AllInside filename = elim (Bool-cases (files.opens filename)) [
    | inl y ↦ elim (Option-cases (files.new_reader filename)) [
      | inl n ↦ rw (y, n) tt
      | inr (entries, e) ↦ rw (y, e) (unpack_entries-AllInside entries)
    ]
    | inr n ↦ rw n tt
  ]

-- If the destination is given: whatever the archive holds, and whether or not its unpacking ends in
-- an error, each directory that is made and each file that is created or written is the destination
-- or lies under it.
pub unpack_archive-Confined :
    (files : Files) (filename destination : Text)
    → (destination == []) ≡ false
    → All (λ t. IsInside destination (target t)) (unpack_archive files filename destination).1
unfolding unpack_archive AllInside
unpack_archive-Confined files filename destination d =
    elim (Bool-cases (files.makes_dir destination)) [
      | inl y ↦ rw (d, y) (([], refl), open_archive-AllInside files destination d filename)
      | inr n ↦ rw (d, n) (([], refl), tt)
    ]
