-- ===== src/FunctionStore/Tests/Disk.antt =====
-- A file system that is a list of the paths that are there, and a database in memory.
use b7s.Common.{
  ℕ, true, List, [], ◌∷◌, ◌++◌, Option, none, some, ◌==◌, ◌≡◌, refl, sym, ap, ◌∙◌, if◌then◌else◌,
  arith,
}
use b7s.Common.Text.{Text, text_eq, text_beq, text_beq_iff, codes}
use b7s.Common.Path.{render}
use b7s.Common.Path.Place.{IsPlain}
use b7s.Models.{FunctionRecord}
use b7s.Store.Database as Store
use b7s.Store.Database.{Codec}
use b7s.Store.Tests.Memory.{
  memory, memory-Laws, archived, write, read, read-write, FunctionRecord-discrete,
}
use b7s.FunctionStore.Archive.{type_dir, type_reg, Files, target}
use b7s.FunctionStore.Outside.{Outside, Stat, present, absent, Laws}

-- A record without a manifest, but for the path of its archive.
abbrev pub stored : Text → Text → Text → Text → ℕ → ℕ → FunctionRecord
stored cid archive files file updated retrieved = record (archived cid) {
  archive = archive;
  files = files;
  updated_at = updated;
  last_retrieved = retrieved;
  manifest = record (archived cid).manifest {
    deployment = record (archived cid).manifest.deployment { file = file };
  };
}

abbrev of_record : FunctionRecord → FunctionRecord
of_record f =
    stored f.cid f.archive f.files f.manifest.deployment.file f.updated_at f.last_retrieved

abbrev encode : (f : FunctionRecord) → Dec (of_record f ≡ f) → Option Text
encode f (yes e) = some (
    write f.cid (
      write f.archive
        (write f.files (write f.manifest.deployment.file (f.updated_at ∷ f.last_retrieved ∷ [])))))
encode f (no n) = none

abbrev times : Text → Text → Text → Text → Text → Option FunctionRecord
times cid archive files file (updated ∷ retrieved ∷ []) =
    some (stored cid archive files file updated retrieved)
times cid archive files file _ = none

abbrev decode : Text → Option FunctionRecord
decode t =
    let (cid, after_cid) = read t in
    let (archive, after_archive) = read after_cid in
    let (files, after_files) = read after_archive in
    let (file, after_file) = read after_files in times cid archive files file after_file

abbrev codec : Codec FunctionRecord
codec = record {
  marshal = λ f. encode f (FunctionRecord-discrete (of_record f) f);
  unmarshal = decode;
}

some_injective : (a b : Text) → some a ≡ some b → a ≡ b
some_injective a b h = cc

codec_reads :
    (f : FunctionRecord) (val : Text) → codec.marshal f ≡ some val → codec.unmarshal val ≡ some f
codec_reads f val h = decoded (FunctionRecord-discrete (of_record f) f) h
  where
    decoded : (d : Dec (of_record f ≡ f)) → encode f d ≡ some val → decode val ≡ some f
    decoded (yes e) q =
        rw (← some_injective _ val q, read-write, read-write, read-write, read-write) (ap some e)
    decoded (no n) q = ground arith

abbrev pub database : Store.Outside
database = record memory { function_codec = codec }

database-Laws : Store.Laws database
database-Laws = record {
  get-set = memory-Laws.get-set;
  get-delete = memory-Laws.get-delete;
  new_iter_lists = memory-Laws.new_iter_lists;
  marshal_binary_injective = memory-Laws.marshal_binary_injective;
  peer_codec_reads = memory-Laws.peer_codec_reads;
  function_codec_reads = codec_reads;
}

abbrev stat_in : Text → List Text → Stat
stat_in path [] = absent
stat_in path (p ∷ paths) = if p == path then present else stat_in path paths

-- Each archive holds a directory and a file in it.
abbrev answers : Files
answers = record {
  makes_dir = λ path. true;
  opens = λ path. true;
  new_reader = λ path. some (
      some (record { name = codes "d"; typ = type_dir; content = [] })
      ∷ some (record { name = codes "d/x"; typ = type_reg; content = codes "1" })
      ∷ []);
  creates = λ path. true;
  copies = λ path content. true;
}

abbrev pub disk : Outside
disk = record {
  Disk = List Text;
  stat = stat_in;
  files = λ d. answers;
  touch = λ t d. target t ∷ d;
  grab = λ dir uri sum d. (some (dir ++ b'/' ∷ codes "a"), (dir ++ b'/' ∷ codes "a") ∷ d);
  store = database;
  get_json = λ address. none;
  parse_url = λ address. none;
  url_string = λ url. [];
  workdir = codes "/w";
  now = 1;
}

pub a-IsPlain : IsPlain (codes "a")
unfolding text_beq
a-IsPlain = record { no_slash = (refl, tt); not_empty = refl; not_here = refl; not_above = refl }

stat_in-first : (path : Text) (d : List Text) → stat_in path (path ∷ d) ≡ present
stat_in-first path d = rw ((text_beq_iff path path).1 refl) refl

stat_in-keeps :
    (p path : Text) (d : List Text) → stat_in path d ≡ present → stat_in path (p ∷ d) ≡ present
stat_in-keeps p path d h = ground arith

grabbed_name :
    (last : Text) (earlier : List Text) (file : Text)
    → some (render (last ∷ earlier) ++ b'/' ∷ codes "a") ≡ some file
    → file ≡ render (codes "a" ∷ last ∷ earlier)
unfolding render
grabbed_name last earlier file h = sym (some_injective _ file h)

pub disk-Laws : Laws disk
disk-Laws = record {
  make_dir_present = λ dir d h. stat_in-first dir d;
  touch_keeps = λ t path d h. stat_in-keeps (target t) path d h;
  grab_name = λ last earlier uri sum file d p made h.
      (codes "a", a-IsPlain, grabbed_name last earlier file h);
  grab_present = λ dir uri sum file d h.
      ap (stat_in file) (ap (λ f. f ∷ d) (some_injective _ file h)) ∙ stat_in-first file d;
  store_laws = database-Laws;
}
