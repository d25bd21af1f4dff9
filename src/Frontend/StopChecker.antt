-- ===== src/Frontend/StopChecker.antt =====
-- astrai/inference/frontend/output_processor.py, class `StopSequenceChecker`: stop sequences in a
-- text that arrives in pieces. A text is the list of its code points.
pub mod Find
pub mod Scan
pub mod Release
pub mod Stream
use mathlib.Core.Option
use astr_ai.Base.{
  ℕ, zero, suc, ◌+◌, ◌-◌, max, Bool, true, false, not, ◌&&◌, List, [], ◌∷◌, ◌++◌, Option, none,
  some, ltb, leb, ◌==◌, if◌then◌else◌, length, take, drop, is_nil,
}

abbrev pub Text : Type 0
Text = List ℕ

-- `text.startswith(seq)`.
abbrev pub starts_with : Text → Text → Bool
starts_with [] text = true
starts_with (x ∷ seq) [] = false
starts_with (x ∷ seq) (y ∷ text) = x == y && starts_with seq text

-- `text.find(seq)`, none for -1.
unfoldable pub find : Text → Text → Option ℕ
find seq [] = if is_nil seq then some 0 else none
find seq (c ∷ text) =
    let later = find seq text in if starts_with seq (c ∷ text) then some 0 else Option.map suc later

pub record StopChecker : Type 0 where
  pub sequences : List Text
  pub max_len : ℕ
  pub buffer : Text
  pub matched : Option Text

-- `[s for s in sequences if s]`.
abbrev pub nonempty : List Text → List Text
nonempty [] = []
nonempty (s ∷ sequences) = let rest = nonempty sequences in if is_nil s then rest else s ∷ rest

-- `max((len(s) for s in sequences), default=0)`.
abbrev pub longest : List Text → ℕ
longest [] = 0
longest (s ∷ sequences) = max (length s) (longest sequences)

unfoldable pub init : List Text → StopChecker
init sequences = record {
  sequences = nonempty sequences;
  max_len = longest (nonempty sequences);
  buffer = [];
  matched = none;
}

-- `position < first`, where there is a position.
abbrev pub earlier : Option ℕ → ℕ → Bool
earlier none first = false
earlier (some position) first = ltb position first

abbrev pub position_or : Option ℕ → ℕ → ℕ
position_or none first = first
position_or (some position) first = position

-- The loop over the sequences: the earliest match, and whose it is.
unfoldable pub scan : Text → List Text → ℕ → Option Text → ℕ × Option Text
scan buffer [] first matched = (first, matched)
scan buffer (seq ∷ sequences) first matched =
    let closer = earlier (find seq buffer) first in
    scan buffer sequences (if closer then position_or (find seq buffer) first else first)
      (if closer then some seq else matched)

unfoldable pub flush : StopChecker → StopChecker × Text
flush c = (record c { buffer = [] }, c.buffer)

-- `push` once the buffer holds no match: all but the tail that a match could still begin in.
unfoldable pub release : StopChecker → StopChecker × Text × Bool
unfolding flush
release c =
    let keep = c.max_len - 1 in
    let size = length c.buffer in
    if leb c.max_len 1
    then (let (c', text) = flush c in (c', text, false))
    else if ltb keep size
    then (record c { buffer = drop (size - keep) c.buffer }, take (size - keep) c.buffer, false)
    else (c, [], false)

unfoldable pub push : StopChecker → Text → StopChecker × Text × Bool
unfolding scan release
push c text = if is_nil c.sequences then (c, text, false) else elim c.matched [
  | some _ ↦ (c, [], true)
  | none ↦
      let buffer = c.buffer ++ text in
      let (first, matched) = scan buffer c.sequences (length buffer) none in
      elim matched [
        | some seq ↦ (record c { buffer = []; matched = some seq }, take first buffer, true)
        | none ↦ release (record c { buffer = buffer })
      ]
]
