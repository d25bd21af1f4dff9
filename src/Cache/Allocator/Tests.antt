-- ===== src/Cache/Allocator/Tests.antt =====
-- Runs of the pool of astrai/inference/core/cache/strategy.py on concrete inputs.
use astr_ai.Base.{
  ℕ, ◌+◌, ◌*◌, ◌/◌, ◌≤◌, ◌≡◌, refl, sym, ap, subst, true, false, List, [], ◌∷◌, Option, none, some,
  arith, leb, ◌==◌, if◌then◌else◌, length, get_elem?, take, mem, Distinct, Result, ok, err,
}
use mathlib.Core.Option
use astr_ai.Base.Int.{pos, dec}
use astr_ai.Cache.Mask.{bit, bit_count, set_bits}
use astr_ai.Cache.Allocator.{
  Allocator, Hook, init, sync_words, alloc_many, evict_until, harvest_pages, harvest, harvest_word,
  mask_alloc_bits, claim, put_ref, fill_words, advance, all_free, free_many, free_loop, free_step,
  close_batch, fresh, alloc, evict_cached, revoke, inc_ref, clear_cached, discard_cached,
}
use astr_ai.Cache.Allocator.Index.{Indexed}
use astr_ai.Cache.Allocator.Inv.{Inv, Discarded, discard_cached-Discarded}
use astr_ai.Cache.Allocator.Init.{init-Inv, sync_words-Indexed}
use astr_ai.Cache.Allocator.Granted.{Granted}
use astr_ai.Cache.Allocator.Room.{unheld, Answered, is_given, alloc_many-unheld}
use astr_ai.Cache.Allocator.Alloc.{
  Evicted, Allocated, available, alloc_many_all, alloc_many_lowest, alloc-Allocated,
  evict_cached-Evicted,
}
use astr_ai.Cache.Allocator.Free.{
  Held, free_each, free_many-free_each, free_many-Inv, inc_ref-Inv, clear_cached-Inv,
}

-- A callback that counts its calls and revokes nothing else.
abbrev counting : Hook ℕ
counting = some (λ c idx. (c + 1, none))

abbrev pool_of : Result (Allocator × ℕ × Option (List ℕ)) → Allocator
pool_of (ok (a, c, out)) = a
pool_of (err e) = init 0

abbrev pool_after : Result Allocator → Allocator
pool_after (ok a) = a
pool_after (err e) = init 0

-- Three pages, of which the first two are held.
abbrev held_pool : Allocator
held_pool = pool_of (alloc_many counting (init 3) 0 2)

-- The first of them was released and is cached, the second is held, the third is free.
abbrev cached_pool : Allocator
cached_pool = pool_after (free_many held_pool (0 ∷ []) (some (λ i. true)))

room : 2 ≤ available (init 3)
unfolding init sync_words all_free
room = omega arith

held_pool-Inv : Inv held_pool
held_pool-Inv =
    let (a', c', out, e, _, _, g) = alloc_many_all counting (init 3) 0 (init-Inv 3).0 2 room in
    subst (λ a. Inv a) (sym (ap pool_of e)) g.inv

first-Held : Held held_pool 0
unfolding alloc_many init sync_words all_free fill_words advance evict_until harvest_pages harvest
    harvest_word mask_alloc_bits claim put_ref
first-Held = (0, refl)

second-Held : Held held_pool 1
unfolding alloc_many init sync_words all_free fill_words advance evict_until harvest_pages harvest
    harvest_word mask_alloc_bits claim put_ref
second-Held = (0, refl)

just_first : (j : ℕ) → mem j (0 ∷ []) ≡ true → Held held_pool j
just_first j m = let e : 0 ≡ j = ground arith in subst (λ k. Held held_pool k) e first-Held

cached_pool-Inv : Inv cached_pool
cached_pool-Inv =
    let (a', e, v, _) =
      free_many-Inv held_pool (0 ∷ []) (λ i. true) held_pool-Inv (refl, tt) just_first in
    subst (λ a. Inv a) (sym (ap pool_after e)) v

two_left : 2 ≤ available cached_pool
unfolding alloc_many init sync_words all_free fill_words advance evict_until harvest_pages harvest
    harvest_word mask_alloc_bits claim put_ref free_many free_loop free_step close_batch
two_left = omega arith

one_free : 1 ≤ bit_count cached_pool.free_mask
unfolding alloc_many init sync_words all_free fill_words advance evict_until harvest_pages harvest
    harvest_word mask_alloc_bits claim put_ref free_many free_loop free_step close_batch
one_free = omega arith

cached_bit : bit cached_pool.free_mask 0 ≡ false
unfolding alloc_many init sync_words all_free fill_words advance evict_until harvest_pages harvest
    harvest_word mask_alloc_bits claim put_ref free_many free_loop free_step close_batch
cached_bit = refl

cached_zero : get_elem? cached_pool.refs 0 ≡ some (pos 0)
unfolding alloc_many init sync_words all_free fill_words advance evict_until harvest_pages harvest
    harvest_word mask_alloc_bits claim put_ref free_many free_loop free_step close_batch
cached_zero = refl

alloc_many_all_example :
    (a' : Allocator) × (c' : ℕ) × (out : List ℕ) × (alloc_many counting cached_pool 0 2
      ≡ ok (a', c', some out))
    × (length out ≡ 2)
    × Distinct out
    × Granted cached_pool a' out
alloc_many_all_example = alloc_many_all counting cached_pool 0 cached_pool-Inv 2 two_left

alloc_many_lowest_example :
    (a' : Allocator) × (alloc_many counting cached_pool 0 1
      ≡ ok (a', 0, some (take 1 (set_bits 0 cached_pool.free_mask))))
    × (a'.lru ≡ cached_pool.lru)
alloc_many_lowest_example = alloc_many_lowest counting cached_pool 0 cached_pool-Inv 1 one_free

alloc_many-unheld_example :
    (a' : Allocator) × (c' : ℕ) × (r : Option (List ℕ)) × (alloc_many counting cached_pool 0 3
      ≡ ok (a', c', r))
    × (is_given r ≡ leb 3 (unheld cached_pool.refs))
    × Answered 3 cached_pool 0 a' c' r
alloc_many-unheld_example = alloc_many-unheld counting cached_pool 0 cached_pool-Inv 3

alloc-Allocated_example :
    (a' : Allocator) × (c' : ℕ) × (r : Option ℕ) × (alloc counting cached_pool 0 ≡ ok (a', c', r))
    × Allocated counting cached_pool 0 cached_pool-Inv a' r
alloc-Allocated_example = alloc-Allocated counting cached_pool 0 cached_pool-Inv

evict_cached-Evicted_example :
    (a' : Allocator) × (n : ℕ) × (evict_cached counting cached_pool 0 0
      ≡ ok (a', (revoke counting 0 0).0, n))
    × Evicted counting cached_pool 0 a' n
evict_cached-Evicted_example = evict_cached-Evicted counting cached_pool 0 0 cached_pool-Inv

free_many-Inv_example :
    (a' : Allocator) × (free_many held_pool (0 ∷ []) (some (λ i. true)) ≡ ok a')
    × Inv a'
    × ((j : ℕ)
        → get_elem? a'.refs j ≡ (
            if mem j (0 ∷ [])
            then Option.map dec (get_elem? held_pool.refs j)
            else get_elem? held_pool.refs j))
free_many-Inv_example =
    free_many-Inv held_pool (0 ∷ []) (λ i. true) held_pool-Inv (refl, tt) just_first

free_many-free_each_example :
    free_many held_pool (0 ∷ 0 ∷ 1 ∷ []) (some (λ i. i == 1))
    ≡ free_each (λ i. i == 1) held_pool (0 ∷ 0 ∷ 1 ∷ [])
free_many-free_each_example =
    free_many-free_each held_pool (0 ∷ 0 ∷ 1 ∷ []) (λ i. i == 1) held_pool-Inv

inc_ref-Inv_example :
    (a' : Allocator) × (inc_ref cached_pool 0 ≡ ok a')
    × Inv a'
    × (mem 0 a'.lru ≡ false)
    × ((j : ℕ)
        → get_elem? a'.refs j ≡ (if 0 == j then some (pos 1) else get_elem? cached_pool.refs j))
    × (a'.free_mask ≡ cached_pool.free_mask)
inc_ref-Inv_example = inc_ref-Inv cached_pool 0 0 cached_pool-Inv cached_bit cached_zero

clear_cached-Inv_example :
    (a' : Allocator) × (c' : ℕ) × (clear_cached counting cached_pool 0
      ≡ ok (a', c', length cached_pool.lru))
    × Inv a'
    × (a'.lru ≡ [])
    × (a'.refs ≡ cached_pool.refs)
    × (bit_count a'.free_mask ≡ bit_count cached_pool.free_mask + length cached_pool.lru)
clear_cached-Inv_example = clear_cached-Inv counting cached_pool 0 cached_pool-Inv

discard_cached-Discarded_example :
    (a' : Allocator) × (n : ℕ) × (discard_cached cached_pool (0 ∷ 1 ∷ []) ≡ ok (a', n))
    × Discarded cached_pool (0 ∷ 1 ∷ []) a' n
discard_cached-Discarded_example = discard_cached-Discarded cached_pool (0 ∷ 1 ∷ []) cached_pool-Inv

fresh_length : length (fresh 3).free_mask ≡ (3 + 63) / 64 * 64
unfolding all_free
fresh_length = refl

sync_words-Indexed_example : Indexed (sync_words (fresh 3))
sync_words-Indexed_example = sync_words-Indexed (fresh 3) fresh_length
