-- ===== src/Cache/Allocator.antt =====
-- astrai/inference/core/cache/strategy.py, class `Allocator`: the page pool with reference counts
-- and LRU eviction. A method returns the new state beside its result, or raises. The lock is held
-- for a whole method, so a method is one step. Pages are numbers from 0; a list index below 0 does
-- not occur. The words are indexed only by pages that passed a read of `refs`, or came out of the
-- mask, so that a write beyond the words (which would raise) leaves them unchanged here.
pub mod Words
pub mod Harvest
pub mod Index
pub mod Inv
pub mod Granted
pub mod Alloc
pub mod Room
pub mod Dropped
pub mod Free
pub mod Init
mod Tests
use astr_ai.Base.{
  ℕ, zero, suc, ◌+◌, ◌-◌, ◌*◌, ◌/◌, ◌%◌, min, Bool, true, false, not, List, [], ◌∷◌, ◌++◌, Option,
  none, some, ltb, leb, if◌then◌else◌, length, get_elem?, set, take, drop, replicate, is_nil, mem,
  remove, Result, ok, err, index_error, runtime_error, stop_iteration, ◌>>=◌, ◌>>◌, raise_if,
}
use astr_ai.Base.Int.{ℤ, pos, inc, dec, is_zero}
use astr_ai.Cache.Mask.{Mask, is_empty, lsb, bit_count, clear_bits}

-- `_WORD_BITS`.
abbrev pub word_bits : ℕ
word_bits = 64

-- `lru` is the ordered dictionary's keys, oldest first.
pub record Allocator : Type 0 where
  pub free_mask : Mask
  pub n_pages : ℕ
  pub refs : List ℤ
  pub lru : List ℕ
  pub words : List Mask
  pub first_nonempty : ℕ

-- `on_evict`: an optional callback, over the state `C` of whoever registered it, that revokes the
-- identity of a page and may answer with the pages revoked along with it.
abbrev pub Hook : Type 0 → Type 0
Hook C = Option (C → ℕ → C × Option (List ℕ))

-- `words[i] = f(words[i])`.
abbrev pub modify {ℓ} : {A : Type ℓ} → List A → ℕ → (A → A) → List A
modify [] i f = []
modify (x ∷ xs) zero f = f x ∷ xs
modify (x ∷ xs) (suc i) f = x ∷ modify xs i f

-- The `while m:` loop over the remaining words; those after the last 1 keep their 0.
pub fill_words : ℕ → Mask → List Mask
fill_words zero m = []
fill_words (suc n) m =
    let rest = fill_words n (drop word_bits m) in
    if is_empty m then replicate (suc n) (replicate word_bits false) else take word_bits m ∷ rest

-- The cursor's loop: from word `w` on, over every empty word.
pub advance : ℕ → List Mask → ℕ
advance w [] = w
advance w (word ∷ words) = let rest = advance (w + 1) words in if is_empty word then rest else w

pub sync_words : Allocator → Allocator
sync_words a = record a { words = words; first_nonempty = advance 0 words }
  where
    words : List Mask
    words = fill_words ((a.n_pages + word_bits - 1) / word_bits) a.free_mask

-- `(1 << n_pages) - 1`, with the 0s up to the end of the last word.
pub all_free : ℕ → Mask
all_free n = replicate n true ++ replicate ((n + word_bits - 1) / word_bits * word_bits - n) false

-- `__init__`, before and after the words are filled.
abbrev pub fresh : ℕ → Allocator
fresh n = record {
  free_mask = all_free n;
  n_pages = n;
  refs = replicate n (pos 0);
  lru = [];
  words = [];
  first_nonempty = 0;
}

pub init : ℕ → Allocator
init n = sync_words (fresh n)

-- `words[idx >> 6]` with bit `idx & 63` set to `b`.
abbrev pub put_bit : List Mask → ℕ → Bool → List Mask
put_bit words idx b = modify words (idx / word_bits) (λ word. set word (idx % word_bits) b)

abbrev pub clear_words : List Mask → List ℕ → List Mask
clear_words words [] = words
clear_words words (idx ∷ pages) = clear_words (put_bit words idx false) pages

pub mask_alloc_bits : Allocator → List ℕ → Allocator
mask_alloc_bits a pages = record a {
  words = words;
  free_mask = clear_bits a.free_mask pages;
  first_nonempty = advance a.first_nonempty (drop a.first_nonempty words);
}
  where
    words : List Mask
    words = clear_words a.words pages

pub mask_free_bit : Allocator → ℕ → Allocator
mask_free_bit a idx = record a {
  free_mask = set a.free_mask idx true;
  words = put_bit a.words idx true;
  first_nonempty =
      if ltb (idx / word_bits) a.first_nonempty then idx / word_bits else a.first_nonempty;
}

-- `_refs[idx]`, read and written.
pub ref_count : Allocator → ℕ → Result ℤ
ref_count a idx = elim (get_elem? a.refs idx) [ none ↦ err index_error | some r ↦ ok r ]

pub put_ref : Allocator → ℕ → ℤ → Result Allocator
put_ref a idx r =
    if ltb idx (length a.refs) then ok (record a { refs = set a.refs idx r }) else err index_error

-- `for idx in out: self._refs[idx] = 1`.
pub claim : Allocator → List ℕ → Result Allocator
claim a [] = ok a
claim a (idx ∷ out) = do a' ← put_ref a idx (pos 1); claim a' out

-- `_discard_cached`.
pub discard_cached : Allocator → List ℕ → Result (Allocator × ℕ)
unfolding ref_count mask_free_bit
discard_cached a [] = ok (a, 0)
discard_cached a (idx ∷ idxs) = elim (mem idx a.lru) [
  | false ↦ discard_cached a idxs
  | true ↦ do
    r ← ref_count a idx
    raise_if (not (is_zero r)) runtime_error
    (a', released) ← discard_cached (mask_free_bit (record a { lru = remove idx a.lru }) idx) idxs
    ok (a', released + 1)
]

-- `next(iter(self._lru))`, the oldest cached page.
abbrev pub next_cached : List ℕ → Result ℕ
next_cached [] = err stop_iteration
next_cached (idx ∷ _) = ok idx

module _ {C : Type 0} (hook : Hook C) where
  -- `self.on_evict(idx) if self.on_evict is not None else None`, then `or []`.
  pub revoke : C → ℕ → C × List ℕ
  revoke c idx = elim hook [
    | none ↦ (c, [])
    | some f ↦ let (c', revoked) = f c idx in (c', elim revoked [ none ↦ [] | some idxs ↦ idxs ])
  ]

  pub evict_cached : Allocator → C → ℕ → Result (Allocator × C × ℕ)
  evict_cached a c idx = do
    let (c', revoked) = revoke c idx
    (a₁, released) ← discard_cached a revoked
    (a₂, own) ← discard_cached a₁ (idx ∷ [])
    ok (a₂, c', released + own)

  -- `_mask_alloc_bits([idx]); _refs[idx] = 1; return idx`.
  pub take_page : Allocator → C → ℕ → Result (Allocator × C × Option ℕ)
  take_page a c idx = do
    a' ← put_ref (mask_alloc_bits a (idx ∷ [])) idx (pos 1)
    ok (a', c, some idx)

  -- `none` is the answer -1.
  pub alloc : Allocator → C → Result (Allocator × C × Option ℕ)
  unfolding take_page
  alloc a c = elim (lsb a.free_mask) [
    | some idx ↦ take_page a c idx
    | none ↦ elim (is_nil a.lru) [
      | false ↦ do idx ← next_cached a.lru; (a', c', _) ← evict_cached a c idx; take_page a' c' idx
      | true ↦ ok (a, c, none)
    ]
  ]

  -- `while free < n`, with fuel for each page in the LRU: with none left there, `next` raises.
  pub evict_until : ℕ → ℕ → ℕ → Allocator → C → Result (Allocator × C)
  evict_until zero n free a c = if ltb free n then err stop_iteration else ok (a, c)
  evict_until (suc fuel) n free a c = elim (ltb free n) [
    | false ↦ ok (a, c)
    | true ↦ do
      idx ← next_cached a.lru
      (a', c', released) ← evict_cached a c idx
      evict_until fuel n (free + released) a' c'
  ]

-- The inner loop of the harvest: the lowest 1s of a word, cleared as they are taken.
pub harvest_word : ℕ → ℕ → Mask → List ℕ × Mask
harvest_word zero base word = ([], word)
harvest_word (suc need) base word = elim (lsb word) [
  | none ↦ ([], word)
  | some i ↦
      let (out, word') = harvest_word need base (set word i false) in ((base + i) ∷ out, word')
]

-- The outer loop, over the words from `w` on.
pub harvest : ℕ → ℕ → List Mask → List ℕ × List Mask
harvest need w [] = ([], [])
harvest zero w (word ∷ words) = ([], word ∷ words)
harvest (suc need) w (word ∷ words) = elim (is_empty word) [
  | true ↦ let (out, words') = harvest (suc need) (w + 1) words in (out, word ∷ words')
  | false ↦
      let (out, word') = harvest_word (suc need) (w * word_bits) word in
      let (out', words') = harvest (suc need - length out) (w + 1) words in
      (out ++ out', word' ∷ words')
]

-- From the harvest to the end of `alloc_many`.
pub harvest_pages : Allocator → ℕ → Result (Allocator × List ℕ)
unfolding mask_alloc_bits
harvest_pages a n = do
  let (out, words) = harvest n a.first_nonempty (drop a.first_nonempty a.words)
  a' ← claim (mask_alloc_bits (record a { words = take a.first_nonempty a.words ++ words }) out) out
  ok (a', out)

pub alloc_many :
    {C : Type 0} → Hook C → Allocator → C → ℕ → Result (Allocator × C × Option (List ℕ))
alloc_many hook a c zero = ok (a, c, some [])
alloc_many hook a c (suc k) = if ltb (free + length a.lru) (suc k) then ok (a, c, none) else do
  (a₁, c₁) ← evict_until hook (length a.lru) (suc k) free a c
  (a₂, out) ← harvest_pages a₁ (suc k)
  ok (a₂, c₁, some out)
  where
    free : ℕ
    free = bit_count a.free_mask

-- `self._lru[idx] = None`: a key that is there keeps its place.
abbrev pub touch : List ℕ → ℕ → List ℕ
touch lru idx = if mem idx lru then lru else lru ++ idx ∷ []

pub free : Allocator → ℕ → Bool → Result Allocator
free a idx keep_cached = do
  r ← ref_count a idx
  a' ← put_ref a idx (dec r)
  ok (
      if is_zero (dec r)
      then (if keep_cached then record a' { lru = touch a'.lru idx } else mask_free_bit a' idx)
      else a')

-- The loop of `free_many`: the freed pages are collected, and the lowest word among them.
pub record Batch : Type 0 where
  pub refs : List ℤ
  pub lru : List ℕ
  pub freed : List ℕ
  pub words : List Mask
  pub lowest_word : ℕ

-- One round, after `_refs[idx]` was read as `r`.
pub free_step : (ℕ → Bool) → Batch → ℕ → ℤ → Batch
free_step keep b idx r =
    let b' = record b { refs = set b.refs idx (dec r) } in
    if is_zero (dec r)
    then (if keep idx then record b' { lru = touch b'.lru idx } else record b' {
      freed = idx ∷ b'.freed;
      words = put_bit b'.words idx true;
      lowest_word = min b'.lowest_word (idx / word_bits);
    })
    else b'

pub free_loop : (ℕ → Bool) → Batch → List ℕ → Result Batch
free_loop keep b [] = ok b
free_loop keep b (idx ∷ idxs) = elim (get_elem? b.refs idx) [
  | none ↦ err index_error
  | some r ↦ free_loop keep (free_step keep b idx r) idxs
]

-- `free_mask |= freed_bits`.
abbrev pub add_bits : Mask → List ℕ → Mask
add_bits m [] = m
add_bits m (idx ∷ freed) = set (add_bits m freed) idx true

-- The tail of `free_many`, skipped if no bit was freed.
pub close_batch : Allocator → Batch → Allocator
close_batch a b = elim b.freed [
  | [] ↦ record a { refs = b.refs; lru = b.lru; words = b.words }
  | _ ∷ _ ↦ record a {
    refs = b.refs;
    lru = b.lru;
    words = b.words;
    free_mask = add_bits a.free_mask b.freed;
    first_nonempty = if ltb b.lowest_word a.first_nonempty then b.lowest_word else a.first_nonempty;
  }
]

-- `keep_cached_for=None` keeps no page.
pub free_many : Allocator → List ℕ → Option (ℕ → Bool) → Result Allocator
free_many a idxs keep_cached_for = do
  b ←
      free_loop (elim keep_cached_for [ none ↦ λ _. false | some keep ↦ keep ])
        (record {
          refs = a.refs;
          lru = a.lru;
          freed = [];
          words = a.words;
          lowest_word = length a.words;
        })
        idxs
  ok (close_batch a b)

pub can_ever_satisfy : Allocator → ℕ → Bool
can_ever_satisfy a n = leb n a.n_pages

pub reclaimable_pages : Allocator → ℕ
reclaimable_pages a = length a.lru

pub inc_ref : Allocator → ℕ → Result Allocator
inc_ref a idx = do
  r ← ref_count a idx
  a' ← put_ref a idx (inc r)
  ok (record a' { lru = remove idx a'.lru })

-- `while self._lru`, with fuel for each page in it.
pub evict_all : {C : Type 0} → Hook C → ℕ → Allocator → C → Result (Allocator × C)
evict_all hook zero a c = ok (a, c)
evict_all hook (suc fuel) a c = elim (is_nil a.lru) [
  | true ↦ ok (a, c)
  | false ↦ do
    idx ← next_cached a.lru
    (a', c', _) ← evict_cached hook a c idx
    evict_all hook fuel a' c'
]

pub clear_cached : {C : Type 0} → Hook C → Allocator → C → Result (Allocator × C × ℕ)
clear_cached hook a c = do (a', c') ← evict_all hook (length a.lru) a c; ok (a', c', length a.lru)
