-- ===== src/FunctionStore/Archive.antt =====
-- Unpacking the archive of a function (fstore/gzip.go). The gzip and tar readers and the file system
-- are parameters; the destination is an absolute path, as the callers give it.
pub mod Confined
use b7s.Common.{Bool, List, [], ◌∷◌, ◌++◌, ◌||◌, Option, none, some, ◌==◌, if◌then◌else◌}
use b7s.Common.Text.{Text, text_eq, has_prefix, codes}
use b7s.Common.Outcome.{Outcome, ok, err}
use b7s.Common.Path.{join}

-- `strings.Contains`.
unfoldable pub contains : Text → Text → Bool
contains [] sub = has_prefix sub []
contains (b ∷ s) sub = has_prefix sub (b ∷ s) || contains s sub

-- `tar.TypeDir`, `tar.TypeReg`, and any other type of entry.
pub data EntryType : Type 0 where
  type_dir type_reg type_other : EntryType

pub record Entry : Type 0 where
  pub name : Text
  pub typ : EntryType
  pub content : Text

pub data UnpackError : Type 0 where
  destination_not_created archive_not_opened no_gzip_reader archive_not_read : UnpackError
  directory_not_created file_not_created content_not_written unexpected_entry : UnpackError

-- What is done to the file system: a directory with those above it, a file, and its content.
pub data Touch : Type 0 where
  make_dir create : Text → Touch
  write : Text → Text → Touch

abbrev pub target : Touch → Text
target (make_dir path) = path
target (create path) = path
target (write path content) = path

-- An archive is the entries up to its end, or up to an error, which is `none`.
pub record Files : Type 0 where
  pub makes_dir : Text → Bool
  pub opens : Text → Bool
  pub new_reader : Text → Option (List (Option Entry))
  pub creates : Text → Bool
  pub copies : Text → Text → Bool

abbrev pub Unpacked : Type 0
Unpacked = Outcome UnpackError (Unit {0}) × List Touch

module _ (files : Files) where
  unfoldable pub unpack_file : Text → Text → Unpacked
  unpack_file file content =
      if files.creates file
      then (
        if files.copies file content then ok tt else err content_not_written,
        create file ∷ write file content ∷ [],
      )
      else (err file_not_created, create file ∷ [])

  unfoldable pub unpack_entry : Text → Entry → Unpacked
  unpack_entry destination entry =
      let path = join (destination ∷ entry.name ∷ []) in
      if contains entry.name (codes "..") then (ok tt, []) else elim entry.typ [
        | type_dir ↦
            (if files.makes_dir path then ok tt else err directory_not_created, make_dir path ∷ [])
        | type_reg ↦ unpack_file path entry.content
        | type_other ↦ (err unexpected_entry, [])
      ]

  -- One step of the loop, and the rest of the loop if there is no error.
  abbrev pub then_rest : Unpacked → Unpacked → Unpacked
  then_rest (ok _, touched) rest = (rest.0, touched ++ rest.1)
  then_rest (err e, touched) rest = (err e, touched)

  unfoldable pub unpack_entries : Text → List (Option Entry) → Unpacked
  unpack_entries destination [] = (ok tt, [])
  unpack_entries destination (none ∷ entries) = (err archive_not_read, [])
  unpack_entries destination (some entry ∷ entries) =
      then_rest (unpack_entry destination entry) (unpack_entries destination entries)

  unfoldable pub open_archive : Text → Text → Unpacked
  open_archive filename destination =
      if files.opens filename
      then elim (files.new_reader filename) [
        | none ↦ (err no_gzip_reader, [])
        | some entries ↦ unpack_entries destination entries
      ]
      else (err archive_not_opened, [])

  unfoldable pub unpack_archive : Text → Text → Unpacked
  unpack_archive filename to =
      let destination = if to == [] then codes "." else to in
      if files.makes_dir destination
      then then_rest (ok tt, make_dir destination ∷ []) (open_archive filename destination)
      else (err destination_not_created, make_dir destination ∷ [])
