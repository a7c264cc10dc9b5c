-- ===== src/WriteSpool.antt =====
-- src/backend/observability/write-spool.ts: the object that createWriteSpool closes over is a record, and
-- the file is its bytes beside it. `JSON.stringify` and `JSON.parse` are the record Codec, on the bytes of
-- a line. What the file system does is an argument of each call: whether a rewrite succeeds, and whether
-- a write does or how many bytes a failed one leaves behind.
use Prim.Native.String.{String}
use buy_not_buy_com.Common.{
  ℕ, zero, suc, ◌+◌, Bool, true, false, not, ◌&&◌, ◌||◌, Option, some, none, List, [], ◌∷◌, ◌++◌,
  ltb, ◌==◌, length, take, if◌then◌else◌,
}
use buy_not_buy_com.Common.Dict.{Dict, lookup, keys, fill, unique, sort}
use buy_not_buy_com.WriteBuffer.{SpoolState, or_else, tally, tally_all}
pub mod Lines
pub mod Reopen
pub mod Durable
pub mod Loss
mod Tests

abbrev pub newline : ℕ
newline = 10

pub record Codec (A : Type 0) : Type 0 where
  pub encode : A → List ℕ
  pub decode : List ℕ → Option A

pub record SpoolOptions (A : Type 0) : Type 0 where
  pub max_bytes : ℕ
  pub enabled : Bool
  pub market_of : A → String

pub record WriteSpool (A : Type 0) : Type 0 where
  pub entries : List A
  pub is_open : Bool
  pub file_bytes : ℕ
  pub dirty : Bool
  pub refused : Bool
  pub evicted : ℕ
  pub torn : ℕ
  pub evicted_by_market : Dict ℕ

-- What a write does: all of the line reaches the disk, or the call fails after this many of its bytes.
pub data Written : Type 0 where
  durable : Written
  failed_after : ℕ → Written

-- `raw.split('\n')`, which has at least one part.
abbrev pub extend_first : ℕ → List (List ℕ) → List (List ℕ)
extend_first c [] = (c ∷ []) ∷ []
extend_first c (part ∷ parts) = (c ∷ part) ∷ parts

pub split_lines : List ℕ → List (List ℕ)
split_lines [] = [] ∷ []
split_lines (c ∷ cs) = elim (c == newline) [
  | true ↦ [] ∷ split_lines cs
  | false ↦ extend_first c (split_lines cs)
]

abbrev pub rest_of : {A : Type 0} → List A → List A
rest_of [] = []
rest_of (e ∷ es) = es

abbrev pub rotated : {A : Type 0} → List A → List A
rotated [] = []
rotated (e ∷ es) = es ++ e ∷ []

pub empty_spool : {A : Type 0} → WriteSpool A
empty_spool = record {
  entries = [];
  is_open = false;
  file_bytes = 0;
  dirty = false;
  refused = false;
  evicted = 0;
  torn = 0;
  evicted_by_market = [];
}

module _ {A : Type 0} (codec : Codec A) where
  open codec use {encode, decode}

  pub line_of : A → List ℕ
  line_of e = encode e ++ newline ∷ []

  pub contents_of : List A → List ℕ
  unfolding line_of
  contents_of [] = []
  contents_of (e ∷ es) = line_of e ++ contents_of es

  -- `rewrite`: the file is replaced whole, or stays as it was. The bytes are the file after it.
  pub rewrite : Bool → WriteSpool A → List ℕ → WriteSpool A × List ℕ × Bool
  unfolding contents_of
  rewrite false s file = (record s { is_open = false }, file, false)
  rewrite true s file = (
    record s { is_open = false; file_bytes = length (contents_of s.entries); dirty = false },
    contents_of s.entries,
    true,
  )

  pub shift : WriteSpool A → WriteSpool A
  shift s = record s { entries = rest_of s.entries; dirty = true }

  -- One line of the file at start-up.
  pub read_line : List ℕ → WriteSpool A → WriteSpool A
  read_line [] s = record s { torn = s.torn + 1 }
  read_line (c ∷ cs) s = elim (decode (c ∷ cs)) [
    | none ↦ record s { torn = s.torn + 1 }
    | some e ↦ record s { entries = s.entries ++ e ∷ [] }
  ]

  -- All parts but the last are lines; a last part that is not empty is an append that never ended.
  pub read_lines : List (List ℕ) → WriteSpool A → WriteSpool A
  unfolding read_line
  read_lines [] s = s
  read_lines ([] ∷ []) s = s
  read_lines ((c ∷ cs) ∷ []) s = record s { torn = s.torn + 1 }
  read_lines (line ∷ next ∷ rest) s = read_lines (next ∷ rest) (read_line line s)

  abbrev pub read_file : List ℕ → WriteSpool A
  unfolding read_lines empty_spool split_lines
  read_file raw =
      let s = read_lines (split_lines raw) empty_spool in
      record s { file_bytes = length raw; dirty = ltb 0 s.torn }

  -- Start-up: whether the directory could be made, and the file if there is one.
  pub create_write_spool : SpoolOptions A → Bool → Option (List ℕ) → WriteSpool A
  unfolding empty_spool read_lines split_lines
  create_write_spool o made raw =
      if not o.enabled
      then empty_spool
      else if not made
      then record empty_spool { refused = true }
      else elim raw [ none ↦ empty_spool | some bytes ↦ read_file bytes ]

  -- The loop that makes room. `file_bytes` does not change in it.
  pub evict_spooled : SpoolOptions A → ℕ → List A → WriteSpool A → WriteSpool A
  evict_spooled o line_bytes [] s = record s { entries = [] }
  evict_spooled o line_bytes (e ∷ es) s =
      let rest = evict_spooled o line_bytes es (record s {
        evicted = s.evicted + 1;
        evicted_by_market = tally (o.market_of e) s.evicted_by_market;
      }) in
      if ltb o.max_bytes (s.file_bytes + line_bytes) then rest else record s { entries = e ∷ es }

  pub make_room : SpoolOptions A → ℕ → Bool → WriteSpool A → List ℕ → WriteSpool A × List ℕ × Bool
  unfolding evict_spooled rewrite
  make_room o line_bytes rewritten s file =
      if ltb o.max_bytes (s.file_bytes + line_bytes)
      then rewrite rewritten (evict_spooled o line_bytes s.entries s) file
      else (s, file, true)

  -- The write and the flush of one line, and the queue after it.
  pub write_line : A → Written → WriteSpool A → List ℕ → WriteSpool A × List ℕ × Bool
  unfolding line_of
  write_line e durable s file = (
    record s {
      entries = s.entries ++ e ∷ [];
      is_open = true;
      file_bytes = s.file_bytes + length (line_of e);
    },
    file ++ line_of e,
    true,
  )
  write_line e (failed_after n) s file =
      (record s { is_open = false }, file ++ take n (line_of e), false)

  pub append :
      SpoolOptions A → A → Bool → Written → WriteSpool A → List ℕ → WriteSpool A × List ℕ × Bool
  unfolding make_room write_line
  append o e rewritten written s file =
      if not o.enabled || s.refused
      then (s, file, false)
      else let (t, file', has_room) = make_room o (length (line_of e)) rewritten s file in
        if has_room then write_line e written t file' else (t, file', false)

  pub peek : WriteSpool A → Option A
  peek s = elim s.entries [ [] ↦ none | e ∷ es ↦ some e ]

  pub confirm : WriteSpool A → WriteSpool A
  unfolding shift
  confirm s = shift s

  pub drop_oldest : WriteSpool A → WriteSpool A
  unfolding shift
  drop_oldest s = shift s

  pub rotate : WriteSpool A → WriteSpool A
  rotate s = record s { entries = rotated s.entries; dirty = true }

  pub compact : Bool → WriteSpool A → List ℕ → WriteSpool A × List ℕ × Bool
  unfolding rewrite
  compact rewritten s file = if s.dirty then rewrite rewritten s file else (s, file, true)

  -- The getter `byMarket`, counted as the one of the memory buffer is.
  pub spool_by_market : SpoolOptions A → WriteSpool A → Dict SpoolState
  spool_by_market o s =
      let spooled = tally_all (record { max_size = 0; market_of = o.market_of }) s.entries [] in
      fill
        (λ market. record {
          spooled = or_else (lookup market spooled) 0;
          dropped = or_else (lookup market s.evicted_by_market) 0;
        })
        (sort (unique (keys spooled ++ keys s.evicted_by_market))) []
