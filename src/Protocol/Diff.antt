-- ===== src/Protocol/Diff.antt =====
-- packages/protocol/src/unifiedDiff.ts: unified diffs, over the code units of the texts. The
-- position in the original is kept with the lines from there on.
pub mod Hunks
pub mod Outcome
use emacs_llvm.Base.{
  ℕ, zero, suc, ◌+◌, ◌-◌, ◌*◌, String, Bool, true, false, ◌&&◌, ◌||◌, not, Option, none, some, List,
  [], ◌∷◌, ◌++◌, if◌then◌else◌, ltb, ◌==◌, length, take, drop,
}
use emacs_llvm.Base.Bytes.{Text, codes, strip_prefix, text_eq, is_digit}
use emacs_llvm.Base.Json.{field, nat, end}
use emacs_llvm.Protocol.Errors.{
  Result, ok, err, throw, ensure, ◌>>=◌, ◌>>◌, invalid_argument, state_conflict,
}
use emacs_llvm.Lisp.Scanner.{span}

pub data HunkLine : Type 0 where
  context add remove : Text → HunkLine

pub record Hunk : Type 0 where
  pub old_start : ℕ
  pub old_count : ℕ
  pub new_start : ℕ
  pub new_count : ℕ
  pub lines : List HunkLine

-- `text.replace(/\r\n/g, "\n")`
unfoldable pub unix_lines : Text → Text
unix_lines [] = []
unix_lines (c ∷ []) = c ∷ []
unix_lines (c ∷ d ∷ cs) =
    let ended = 10 ∷ unix_lines cs in
    let further = c ∷ unix_lines (d ∷ cs) in if c == 13 && d == 10 then ended else further

-- `text.split("\n")`; `cur` is the line read so far.
unfoldable pub split_from : Text → Text → List Text
split_from cur [] = cur ∷ []
split_from cur (c ∷ cs) =
    let closed = cur ∷ split_from [] cs in
    let longer = split_from (cur ++ c ∷ []) cs in if c == 10 then closed else longer

abbrev value_of : ℕ → Text → ℕ
value_of n [] = n
value_of n (d ∷ ds) = value_of (n * 10 + (d - 48)) ds

-- `\d+`, with its number and the rest of the text.
unfoldable pub number : Text → Option (ℕ × Text)
number cs = elim (span is_digit cs).0 [
  | [] ↦ none
  | d ∷ ds ↦ some (value_of 0 (d ∷ ds), (span is_digit cs).1)
]

infixl 5 ◌then?◌
abbrev ◌then?◌ : {A B : Type 0} → Option A → (A → Option B) → Option B
none then? f = none
some a then? f = f a

-- `(?:,(\d+))?`, where a count that is missing is 1.
abbrev count_of : Text → Option (ℕ × Text) → ℕ × Text
count_of cs none = (1, cs)
count_of cs (some r) = r

unfoldable pub counted : Text → ℕ × Text
counted cs = count_of cs (strip_prefix (codes ",") cs then? number)

-- `/^@@ -(\d+)(?:,(\d+))? \+(\d+)(?:,(\d+))? @@/`
unfoldable pub hunk_header : Text → Option Hunk
hunk_header line = strip_prefix (codes "@@ -") line then? number then? λ (old_start, r).
    strip_prefix (codes " +") (counted r).1 then? number then? λ (new_start, r').
    strip_prefix (codes " @@") (counted r').1 then? λ _. some (record {
      old_start = old_start;
      old_count = (counted r).0;
      new_start = new_start;
      new_count = (counted r').0;
      lines = [];
    })

-- What a line is to the hunk that is open.
pub data Reading : Type 0 where
  content : HunkLine → Reading
  ignored refused : Reading

unfoldable pub read_line : Text → Reading
read_line [] = ignored
read_line (c ∷ cs) =
    if c == b' '
    then content (context cs)
    else if c == b'+'
    then content (add cs)
    else if c == b'-'
    then content (remove cs)
    else elim (strip_prefix (codes "\\ No newline at end of file") (c ∷ cs)) [
      | some rest ↦ ignored
      | none ↦ refused
    ]

abbrev close : Option Hunk → List Hunk
close none = []
close (some h) = h ∷ []

abbrev extend : Hunk → HunkLine → Hunk
extend h l = record h { lines = h.lines ++ l ∷ [] }

-- The loop of `parseHunks`; `current` is the hunk that is open.
unfoldable pub parse_lines : Option Hunk → List Text → Result (List Hunk)
parse_lines current [] = ok (close current)
parse_lines current (line ∷ rest) = elim (hunk_header line) [
  | some h ↦ parse_lines (some h) rest >>= λ hunks. ok (close current ++ hunks)
  | none ↦ elim current [
    | none ↦ parse_lines none rest
    | some h ↦ elim (read_line line) [
      | content l ↦ parse_lines (some (extend h l)) rest
      | ignored ↦ parse_lines (some h) rest
      | refused ↦ throw invalid_argument "Invalid unified diff line." none
    ]
  ]
]

abbrev is_nil : List Hunk → Bool
is_nil [] = true
is_nil (h ∷ hs) = false

unfoldable pub parse_hunks : Text → Result (List Hunk)
parse_hunks diff = do
  hunks ← parse_lines none (split_from [] (unix_lines diff))
  ensure (not (is_nil hunks)) invalid_argument "Unified diff contains no hunks." none
  ok hunks

-- Where the patch stands in the original: the number of lines passed, and those ahead.
pub record Cursor : Type 0 where
  pub index : ℕ
  pub ahead : List Text

-- What the lines of a hunk write, where they end, and how many old and new lines they had.
pub record Progress : Type 0 where
  pub output : List Text
  pub cursor : Cursor
  pub old_seen : ℕ
  pub new_seen : ℕ

-- `originalLines[sourceIndex] !== line.text`, false if there is such a line and it is this one.
abbrev at_cursor : List Text → Text → Bool
at_cursor [] text = false
at_cursor (l ∷ ls) text = text_eq l text

abbrev advance : Cursor → Cursor
advance c = record { index = suc c.index; ahead = drop 1 c.ahead }

abbrev written : Text → Progress → Progress
written text p = record p { output = text ∷ p.output; new_seen = suc p.new_seen }

abbrev passed : Progress → Progress
passed p = record p { old_seen = suc p.old_seen }

unfoldable pub apply_lines : Cursor → List HunkLine → Result Progress
apply_lines c [] = ok (record { output = []; cursor = c; old_seen = 0; new_seen = 0 })
apply_lines c (context text ∷ ls) = do
  ensure (at_cursor c.ahead text) state_conflict
      "Unified diff context does not match current buffer." none
  p ← apply_lines (advance c) ls
  ok (written text (passed p))
apply_lines c (remove text ∷ ls) = do
  ensure (at_cursor c.ahead text) state_conflict
      "Unified diff removal does not match current buffer." none
  p ← apply_lines (advance c) ls
  ok (passed p)
apply_lines c (add text ∷ ls) = do p ← apply_lines c ls; ok (written text p)

-- One hunk: the lines up to it are copied, and its counts are checked.
unfoldable pub apply_hunk : Cursor → Hunk → Result (List Text × Cursor)
apply_hunk c h = do
  let target = h.old_start - 1
  ensure (not (ltb target c.index)) invalid_argument
      "Unified diff hunks overlap or are out of order." none
  let skip = target - c.index
  p ← apply_lines (record { index = target; ahead = drop skip c.ahead }) h.lines
  ensure (p.old_seen == h.old_count && p.new_seen == h.new_count) invalid_argument
      "Unified diff hunk counts do not match hunk body." none
  ok (take skip c.ahead ++ p.output, p.cursor)

unfoldable pub apply_hunks : Cursor → List Hunk → Result (List Text)
apply_hunks c [] = ok c.ahead
apply_hunks c (h ∷ hs) = do r ← apply_hunk c h; rest ← apply_hunks r.1 hs; ok (r.0 ++ rest)

unfoldable pub ends_with_newline : Text → Bool
ends_with_newline [] = false
ends_with_newline (c ∷ []) = c == 10
ends_with_newline (c ∷ d ∷ cs) = ends_with_newline (d ∷ cs)

abbrev init : List Text → List Text
init [] = []
init (l ∷ []) = []
init (l ∷ k ∷ ls) = l ∷ init (k ∷ ls)

unfoldable pub original_lines : Text → List Text
original_lines original =
    let lines = split_from [] (unix_lines original) in
    if ends_with_newline original then init lines else lines

-- `lines.join("\n")`
unfoldable pub join_lines : List Text → Text
join_lines [] = []
join_lines (l ∷ []) = l
join_lines (l ∷ k ∷ ls) = l ++ 10 ∷ join_lines (k ∷ ls)

unfoldable pub apply_unified_diff : Text → Text → Result Text
apply_unified_diff original diff = do
  hunks ← parse_hunks diff
  output ← apply_hunks (record { index = 0; ahead = original_lines original }) hunks
  let result = join_lines output
  ok (if ends_with_newline original then result ++ 10 ∷ [] else result)
