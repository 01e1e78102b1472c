-- ===== src/FunctionStore/Outside.antt =====
-- What the function store calls: the file system, the downloads, and the database below the store of
-- records (Store.Records); with what the theorems rely on.
use b7s.Common.{ℕ, true, List, ◌∷◌, Option, some, ◌≡◌, All}
use b7s.Common.Text.{Text}
use b7s.Common.Path.{render}
use b7s.Common.Path.Place.{IsPlain}
use b7s.Models.{FunctionManifest}
use b7s.Store.Database as Store
use b7s.FunctionStore.Archive.{Files, Touch, make_dir}

-- The answers of `os.Stat`.
pub data Stat : Type 0 where
  present absent stat_failed : Stat

-- `url.URL`, as far as the code reads it; the other parts are a text.
pub record Url : Type 0 where
  pub scheme : Text
  pub host : Text
  pub other : Text

pub record Outside : Type 1 where
  -- The file system.
  pub Disk : Type 0
  pub stat : Text → Disk → Stat
  -- What the system answers, and what a call does to the disk, also one that fails.
  pub files : Disk → Files
  pub touch : Touch → Disk → Disk
  -- A download to a directory from a URI, with the checksum; the name of the file, if there is no error.
  pub grab : Text → Text → Text → Disk → Option Text × Disk
  -- The database of the store of records, with its codecs.
  pub store : Store.Outside
  pub get_json : Text → Option FunctionManifest
  pub parse_url : Text → Option Url
  pub url_string : Url → Text
  pub workdir : Text
  pub now : ℕ

-- What the theorems rely on.
pub record Laws (o : Outside) : Type 0 where
  pub make_dir_present :
      (dir : Text) (d : o.Disk)
      → (o.files d).makes_dir dir ≡ true
      → o.stat dir (o.touch (make_dir dir) d) ≡ present
  -- Nothing is removed by making directories and by creating and writing files.
  pub touch_keeps :
      (t : Touch) (path : Text) (d : o.Disk)
      → o.stat path d ≡ present
      → o.stat path (o.touch t d) ≡ present
  -- A download to a clean absolute directory that was just made is a file in it.
  pub grab_name :
      (last : Text) (earlier : List Text) (uri sum file : Text) (d : o.Disk)
      → All IsPlain (last ∷ earlier)
      → let dir = render (last ∷ earlier) in
        (o.files d).makes_dir dir ≡ true
        → (o.grab dir uri sum (o.touch (make_dir dir) d)).0 ≡ some file
        → (name : Text) × IsPlain name × (file ≡ render (name ∷ last ∷ earlier))
  pub grab_present :
      (dir uri sum file : Text) (d : o.Disk)
      → (o.grab dir uri sum d).0 ≡ some file
      → o.stat file (o.grab dir uri sum d).1 ≡ present
  pub store_laws : Store.Laws o.store
