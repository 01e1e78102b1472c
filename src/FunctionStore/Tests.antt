-- ===== src/FunctionStore/Tests.antt =====
-- The function store at concrete inputs.
mod Disk
use b7s.Common.{true, false, [], ◌∷◌, some, ◌≡◌, refl, All}
use native.Mathlib.Decide.{ℕ_discrete}
use b7s.Common.Text.{Text, text_beq, has_prefix, codes}
use b7s.Common.Outcome.{ok}
use b7s.Common.Path.{split_from, enter, resolve, render, clean, join_parts, join}
use b7s.Common.Map.{lookup, insert}
use b7s.Common.Hex.{decode}
use b7s.Common.Path.{clean_any, clean_relative, resolve_relative, enter_relative}
use b7s.Common.Path.Place.{IsPlain}
use b7s.Models.{FunctionRecord}
use b7s.Store.Key.{encode_key, add_segments}
use b7s.Store.Records
use b7s.Store.Tests.Memory.{FunctionRecord-discrete}
use b7s.FunctionStore.World.{State, retrieve, record_function, mkdir_all, unpack, touch_all}
use b7s.FunctionStore.Sync.Unpacked.{IsComplete}
use b7s.FunctionStore.Files.{
  trim_prefix, after_prefix, clean_path, download, save_function, get_function,
  check_function_files,
}
use b7s.FunctionStore.Install.{is_installed}
use b7s.FunctionStore.Sync.{unpack_and_save, download_again, sync}
use b7s.FunctionStore.Sync.Restored.{sync-IsComplete}
use b7s.FunctionStore.Tests.Disk.{stored, disk, disk-Laws, a-IsPlain}
use b7s.FunctionStore.Archive.{
  contains, type_dir, type_reg, make_dir, create, write, target, Files, unpack_file, unpack_entry,
  unpack_entries, open_archive, unpack_archive,
}
use b7s.FunctionStore.Archive.Confined.{IsInside, unpack_archive-Confined}

-- A directory, a file that would leave the destination, and a file.
abbrev files : Files
files = record {
  makes_dir = λ path. true;
  opens = λ path. true;
  new_reader = λ path. some (
      some (record { name = codes "d"; typ = type_dir; content = [] })
      ∷ some (record { name = codes "../x"; typ = type_reg; content = [] })
      ∷ some (record { name = codes "d/x"; typ = type_reg; content = codes "1" })
      ∷ []);
  creates = λ path. true;
  copies = λ path content. true;
}

unpack_archive_test : unpack_archive files (codes "/w/f/a") (codes "/w/f") ≡ (
  ok tt,
  make_dir (codes "/w/f")
      ∷ make_dir (codes "/w/f/d")
      ∷ create (codes "/w/f/d/x")
      ∷ write (codes "/w/f/d/x") (codes "1")
      ∷ [],
)
unfolding unpack_archive open_archive unpack_entries unpack_entry unpack_file contains has_prefix
    join join_parts clean split_from resolve enter render text_beq
unpack_archive_test = refl

unpack_archive-Confined_example :
    All
      (λ t. IsInside (codes "/w/f") (target t))
      (unpack_archive files (codes "/w/f/a") (codes "/w/f")).1
unfolding text_beq
unpack_archive-Confined_example = unpack_archive-Confined files (codes "/w/f/a") (codes "/w/f") refl

f-IsPlain : IsPlain (codes "f")
unfolding text_beq
f-IsPlain = record { no_slash = (refl, tt); not_empty = refl; not_here = refl; not_above = refl }

w-IsPlain : IsPlain (codes "w")
unfolding text_beq
w-IsPlain = record { no_slash = (refl, tt); not_empty = refl; not_here = refl; not_above = refl }

-- A record whose archive and files are gone.
abbrev gone : FunctionRecord
gone = stored (codes "f") (codes "/f/a") (codes "/f") [] 0 0

abbrev before : State disk
before = ([], (record_function disk gone ([], [])).1.1)

retrieved : retrieve disk (codes "f") before ≡ ok gone
unfolding retrieve record_function Records.save_function Records.save Records.retrieve_function
    Records.retrieve encode_key add_segments lookup insert FunctionRecord-discrete ℕ_discrete
    text_beq
retrieved = refl

gone_test : is_installed disk (codes "f") before ≡ ok false
unfolding is_installed get_function check_function_files retrieve record_function
    Records.save_function Records.save Records.retrieve_function Records.retrieve encode_key
    add_segments lookup insert FunctionRecord-discrete join join_parts clean split_from resolve
    enter render ℕ_discrete text_beq
gone_test = refl

sync_test : sync disk gone before ≡ (ok tt, (sync disk gone before).1)
unfolding sync download_again unpack_and_save download save_function check_function_files clean_path
    trim_prefix after_prefix clean_any decode has_prefix join join_parts clean split_from resolve
    enter render text_beq mkdir_all unpack touch_all record_function Records.save_function
    Records.save Records.retrieve_function Records.retrieve encode_key add_segments lookup insert
    FunctionRecord-discrete unpack_archive open_archive unpack_entries unpack_entry unpack_file
    contains ℕ_discrete clean_relative resolve_relative enter_relative
sync_test = refl

apart :
    (other : Text)
    → IsPlain other
    → has_prefix (codes "/w") (render (other ∷ codes "f" ∷ [])) ≡ false
unfolding render has_prefix
apart other p = refl

render_w : codes "/w" ≡ render (codes "w" ∷ [])
unfolding render
render_w = refl

render_a : codes "/f/a" ≡ render (codes "a" ∷ codes "f" ∷ [])
unfolding render
render_a = refl

sync-IsComplete_example :
    IsComplete disk (codes "f") (sync disk gone before).1
    × (is_installed disk (codes "f") (sync disk gone before).1 ≡ ok true)
sync-IsComplete_example =
    sync-IsComplete disk disk-Laws (codes "w") [] render_w (w-IsPlain, tt) gone (codes "a") before
      (sync disk gone before).1 f-IsPlain a-IsPlain render_a apart retrieved sync_test
