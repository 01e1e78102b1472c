-- ===== src/Store/Tests/Memory.antt =====
-- A database that is an association list, with codecs for peers and for a few function records.
use b7s.Common.{
  zero, suc, List, [], ◌∷◌, Option, none, some, ◌≡◌, refl, sym, ◌↔◌, inl, inr, Bool, true, false,
  arith, Option-cases, Bool-cases, In, select, ◌==◌, eq_of_beq,
}
use native.Mathlib.Decide.{ℕ_discrete}
use b7s.Common.Text.{Text, text_eq}
use b7s.Common.Map.{Map, lookup, insert, erase, lookup-insert, lookup-erase}
use b7s.Models.{Peer, FunctionRecord}
use b7s.Store.Key.Bounds.{within}
use b7s.Store.Database.{Outside, Codec, GetResult, found, not_found, Laws}

-- A text with its end: each byte one up, and then zero.
abbrev pub write : Text → Text → Text
write [] rest = 0 ∷ rest
write (b ∷ s) rest = suc b ∷ write s rest

abbrev pub read : Text → Text × Text
read [] = ([], [])
read (zero ∷ rest) = ([], rest)
read (suc b ∷ rest) = (b ∷ (read rest).0, (read rest).1)

pub read-write : (s rest : Text) → read (write s rest) ≡ (s, rest)
read-write [] rest = refl
read-write (b ∷ s) rest = rw (read-write s rest) refl

abbrev peer_codec : Codec Peer
peer_codec = record {
  marshal = λ p. some (write p.id (write p.multi_addr p.addr_info));
  unmarshal = λ t.
      let (id, rest) = read t in
      let (multi_addr, addr_info) = read rest in
      some (record { id = id; multi_addr = multi_addr; addr_info = addr_info });
}

some_injective : (a b : Text) → some a ≡ some b → a ≡ b
some_injective a b h = cc

peer_codec_reads :
    (p : Peer) (val : Text) → peer_codec.marshal p ≡ some val → peer_codec.unmarshal val ≡ some p
peer_codec_reads p val h = rw (← some_injective _ val h, read-write, read-write) refl

-- The record of an archive without a manifest.
abbrev pub archived : Text → FunctionRecord
archived cid = record {
  cid = cid;
  url = [];
  archive = cid;
  files = [];
  updated_at = 0;
  last_retrieved = 0;
  manifest = record {
    id = [];
    name = [];
    description = [];
    cached = false;
    hooks = [];
    fs_root_path = [];
    entry = [];
    content_type = [];
    permissions = [];
    drivers_root_path = [];
    limited_fuel = 0;
    limited_memory = 0;
    function = record { id = []; name = []; version = []; runtime = []; extensions = [] };
    deployment = record {
      cid = cid;
      checksum = [];
      uri = [];
      methods = [];
      aggregation = [];
      nodes = 0;
      file = [];
    };
    runtime = record { checksum = []; url = [] };
  };
}

unfoldable pub FunctionRecord-discrete : Discrete FunctionRecord
FunctionRecord-discrete = hlevel (ℕ_discrete)

abbrev encode_function : (f : FunctionRecord) → Dec (archived f.cid ≡ f) → Option Text
encode_function f (yes e) = some f.cid
encode_function f (no n) = none

abbrev function_codec : Codec FunctionRecord
function_codec = record {
  marshal = λ f. encode_function f (FunctionRecord-discrete (archived f.cid) f);
  unmarshal = λ t. some (archived t);
}

function_codec_reads :
    (f : FunctionRecord) (val : Text)
    → function_codec.marshal f ≡ some val
    → function_codec.unmarshal val ≡ some f
function_codec_reads f val h = decoded (FunctionRecord-discrete (archived f.cid) f) h
  where
    decoded :
        (d : Dec (archived f.cid ≡ f))
        → encode_function f d ≡ some val
        → some (archived val) ≡ some f
    decoded (yes e) q = rw (← some_injective _ val q, e) refl
    decoded (no n) q = ground arith

abbrev keys_of : Map Text Text → List Text
keys_of [] = []
keys_of ((k, v) ∷ m) = k ∷ keys_of m

abbrev answer_of : Option Text → GetResult
answer_of none = not_found
answer_of (some val) = found val

abbrev pub memory : Outside
memory = record {
  Database = Map Text Text;
  get = λ key db. answer_of (lookup key db);
  set = λ key val db. (true, insert key val db);
  delete = λ key db. (true, erase key db);
  new_iter = λ lower upper db. some (select (within lower upper) (keys_of db));
  marshal_binary = λ id. some id;
  peer_codec = peer_codec;
  function_codec = function_codec;
}

In-keys_of :
    (key : Text) (m : Map Text Text)
    → In key (keys_of m) ↔ ((val : Text) × (lookup key m ≡ some val))
unfolding lookup
In-keys_of key [] = (λ i. absurd i, λ (v, q). ground arith)
In-keys_of key ((j, w) ∷ m) = elim (Bool-cases (j == key)) [
  | inl y ↦ (λ i. (w, rw y refl), λ q. inl (sym (eq_of_beq j key y)))
  | inr n ↦ (
    λ i. elim i [
      | inl e ↦ absurd (ground (arith, text_eq.beq_iff j key))
      | inr i ↦ let (v, q) = (In-keys_of key m).0 i in (v, rw n q)
    ],
    λ (v, q). inr ((In-keys_of key m).1 (v, (ground arith))),
  )
]

In-select :
    (p : Text → Bool) (key : Text) (xs : List Text)
    → In key (select p xs) ↔ (In key xs × (p key ≡ true))
unfolding select
In-select p key [] = (λ i. absurd i, λ i. absurd i.0)
In-select p key (x ∷ xs) = elim (Bool-cases (p x)) [
  | inl y ↦ rw y (
    λ i. elim i [
      | inl e ↦ (inl e, cc)
      | inr i ↦ let (m, q) = (In-select p key xs).0 i in (inr m, q)
    ],
    λ (m, q). elim m [ inl e ↦ inl e | inr m ↦ inr ((In-select p key xs).1 (m, q)) ],
  )
  | inr n ↦ rw n (
    λ i. let (m, q) = (In-select p key xs).0 i in (inr m, q),
    λ (m, q). elim m [ inl e ↦ ground arith | inr m ↦ (In-select p key xs).1 (m, q) ],
  )
]

memory_found :
    (key : Text) (m : Map Text Text)
    → ((val : Text) × (lookup key m ≡ some val)) ↔ ((val : Text) × (memory.get key m ≡ found val))
memory_found key m = elim (Option-cases (lookup key m)) [
  | inl n ↦ rw n (λ (v, q). ground arith, λ (v, q). ground arith)
  | inr (w, e) ↦ rw e (λ (v, q). (w, refl), λ (v, q). (w, refl))
]

memory_lists :
    (p : Text → Bool) (db : Map Text Text) (key : Text)
    → In key (select p (keys_of db))
      ↔ (((val : Text) × (memory.get key db ≡ found val)) × (p key ≡ true))
memory_lists p db key = (
  λ i.
      let (m, q) = (In-select p key (keys_of db)).0 i in
      ((memory_found key db).0 ((In-keys_of key db).0 m), q),
  λ (g, q). (In-select p key (keys_of db)).1 ((In-keys_of key db).1 ((memory_found key db).1 g), q),
)

list_injective : (a b : List Text) → some a ≡ some b → a ≡ b
list_injective a b h = cc

pub memory-Laws : Laws memory
memory-Laws = record {
  get-set = λ key val other db q. ground (arith, lookup-insert key other val db);
  get-delete = λ key other db q. ground (arith, lookup-erase key other db);
  new_iter_lists = λ lower upper db keys q key.
      rw (← list_injective _ keys q) (memory_lists (within lower upper) db key);
  marshal_binary_injective = λ a b bytes p q. cc;
  peer_codec_reads = peer_codec_reads;
  function_codec_reads = function_codec_reads;
}
