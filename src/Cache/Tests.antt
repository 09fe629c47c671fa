-- ===== src/Cache/Tests.antt =====
-- Runs of the model of the cache, and the theorems about it at them.
use symkernel.Base.{
  ℕ, ◌+◌, ◌≡◌, ◌≢◌, refl, [], ◌∷◌, false, String, none, some, if◌then◌else◌, arith, length, str_dec,
  str_is, ap,
}
use mathlib.Core.Option.{map}
use symkernel.Base.Int.{pos, ltb_ℤ, ◌+ℤ◌}
use symkernel.Base.Dict.{erase, lookup, insert}
use symkernel.Cache.Store.{
  CacheEntry, drop_first, untag, remove_entry, CacheKey, key_dec, Cache, new, tag_all,
  apply_options,
}
use symkernel.Cache.Evict.{last_key, sweep, evict_over, evict}
use symkernel.Cache.Calls.{set, get_by_key, invalidate_by_tag}
use symkernel.Cache.Fill.{SetCall, make, fill, entry_of, IsLive}
use symkernel.Cache.Forgets.{Forgets, evict-Forgets}
use symkernel.Cache.Exhaust.{order_runs_out}
use symkernel.Cache.Hits.{set_then_get}
use symkernel.Cache.Consistent.{carries, IsConsistent}
use symkernel.Cache.Invalidation.{sets, run, run-IsConsistent, invalidate_exact}

abbrev key : String → CacheKey
key s = record { expr_hash = s; context_hash = "00" }

abbrev call : String → ℕ → SetCall ℕ
call s value = record {
  key = key s;
  value = value;
  tags = "schema" ∷ [];
  ttl_override = none;
  now = pos value;
  later = pos value;
}

-- A cache of one entry.
abbrev small : Cache ℕ
small = record {
  entries = [];
  access_order = [];
  tag_index = [];
  capacity = 1;
  ttl = pos 100;
  hits = 0;
  misses = 0;
  evicts = 0;
}

different : (a b : String) → str_is a b ≡ false → key a ≢ key b
different a b h e = ground (arith, h, ap (λ k. k.expr_hash) e)

order_runs_out_example :
    (c1 : Cache ℕ) × (c2 : Cache ℕ) × (fill (call "a" 1 ∷ []) small ≡ some c1)
    × (fill (call "b" 2 ∷ []) c1 ≡ some c2)
    × (length c2.entries ≡ 1)
    × (c2.access_order ≡ [])
    × (make (call "c" 3) c2 ≡ none)
unfolding ◌+ℤ◌ str_dec
order_runs_out_example =
    order_runs_out (pos 50) small (call "a" 1 ∷ []) (call "b" 2 ∷ []) (call "c" 3) refl refl refl
      refl ((omega arith, omega arith), tt) ((omega arith, omega arith), tt)
      (omega arith, omega arith)
      (
        (different "b" "a" refl, (different "c" "a" refl, tt)),
        ((different "c" "b" refl, tt), (tt, tt)),
      )

small-IsLive : IsLive (pos 50) (pos 100) 1 small
small-IsLive = record { same_ttl = refl; same_capacity = refl; distinct = tt; once = tt; held = tt }

small-lookup : lookup key_dec (key "a") small.entries ≡ none
unfolding lookup
small-lookup = refl

set_then_get_example :
    (c' : Cache ℕ) × (make (call "a" 1) small ≡ some c')
    × ((get_by_key (key "a") (pos 60) c').1
        ≡ (if ltb_ℤ (pos 1 +ℤ pos 100) (pos 60) then none else some 1))
    × ((j : CacheKey)
        → j ≢ key "a"
        → (get_by_key j (pos 60) c').1 ≡ (get_by_key j (pos 60) small).1)
unfolding ◌+ℤ◌
set_then_get_example =
    set_then_get (pos 50) (pos 100) 1 small (call "a" 1) (pos 60) small-IsLive small-lookup
      (omega arith, omega arith) (omega arith)

abbrev one_entry : Cache ℕ
one_entry = record {
  entries = (key "a", entry_of (pos 300_000_000_000) (call "a" 1)) ∷ [];
  access_order = key "a" ∷ [];
  tag_index = ("schema", (key "a", tt) ∷ []) ∷ [];
  capacity = 10_000;
  ttl = pos 300_000_000_000;
  hits = 0;
  misses = 0;
  evicts = 0;
}

one_call : run (sets (call "a" 1) ∷ []) (new []) ≡ some one_entry
unfolding run new apply_options set remove_entry tag_all evict sweep evict_over lookup insert ◌+ℤ◌
    key_dec str_dec
one_call = refl

run-IsConsistent_example : IsConsistent one_entry
run-IsConsistent_example = run-IsConsistent [] (sets (call "a" 1) ∷ []) one_entry one_call

invalidate_exact_example :
    let (c', count) = invalidate_by_tag "schema" one_entry in
    ((j : CacheKey)
      → lookup key_dec j c'.entries ≡ (
          if carries "schema" (lookup key_dec j one_entry.entries)
          then none
          else lookup key_dec j one_entry.entries))
    × (length one_entry.entries ≡ length c'.entries + count)
    × IsConsistent c'
invalidate_exact_example =
    invalidate_exact "schema" one_entry
      (run-IsConsistent [] (sets (call "a" 1) ∷ []) one_entry one_call)

abbrev lasting : String → ℕ → CacheKey × CacheEntry ℕ
lasting s until =
    (key s, record { value = 0; tags = []; expires_at = pos until; last_access = pos 0 })

abbrev three : Cache ℕ
three = record one_entry {
  entries = lasting "a" 5 ∷ lasting "b" 90 ∷ lasting "c" 90 ∷ [];
  access_order = key "a" ∷ key "b" ∷ key "c" ∷ [];
  tag_index = [];
}

-- After the expired first key the first pass skips the second and meets the third twice.
first_pass_skips : map (λ c. c.access_order) (evict (pos 10) three) ≡ some (key "c" ∷ key "c" ∷ [])
unfolding last_key evict sweep evict_over remove_entry drop_first untag lookup erase key_dec str_dec
first_pass_skips = refl

-- Two entries over the capacity.
abbrev five : Cache ℕ
five = record one_entry {
  entries = lasting "a" 90 ∷ lasting "b" 90 ∷ lasting "c" 90 ∷ lasting "d" 90 ∷ lasting "e" 90 ∷ [];
  access_order = key "a" ∷ key "b" ∷ key "c" ∷ key "d" ∷ key "e" ∷ [];
  tag_index = [];
  capacity = 3;
}

five-IsLive : IsLive (pos 50) (pos 300_000_000_000) 3 five
unfolding lookup key_dec str_dec
five-IsLive = record {
  same_ttl = refl;
  same_capacity = refl;
  distinct = (refl, (refl, (refl, (refl, (refl, tt)))));
  once = (
    (
      different "b" "a" refl,
      (different "c" "a" refl, (different "d" "a" refl, (different "e" "a" refl, tt))),
    ),
    (
      (different "c" "b" refl, (different "d" "b" refl, (different "e" "b" refl, tt))),
      (
        (different "d" "c" refl, (different "e" "c" refl, tt)),
        ((different "e" "d" refl, tt), (tt, tt)),
      ),
    ),
  );
  held = (
    ((lasting "a" 90).1, refl, omega arith),
    (
      ((lasting "b" 90).1, refl, omega arith),
      (
        ((lasting "c" 90).1, refl, omega arith),
        (((lasting "d" 90).1, refl, omega arith), (((lasting "e" 90).1, refl, omega arith), tt)),
      ),
    ),
  );
}

evict-Forgets_example : (c' : Cache ℕ) × (evict (pos 10) five ≡ some c') × Forgets 2 five c'
evict-Forgets_example =
    evict-Forgets (pos 50) (pos 300_000_000_000) (pos 10) 3 2 five five-IsLive (omega arith) refl
      (omega arith)
