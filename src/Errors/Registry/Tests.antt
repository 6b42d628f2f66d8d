-- ===== src/Errors/Registry/Tests.antt =====
-- A registry with two callers' configurations at the addresses 0 and 1.
use text.Mathlib.TextEquality.{eq_iff}
use gress.Common.{ℕ, ◌≡◌, ◌≢◌, refl, String, false, none, some, pos, arith, false≢true, string_key}
use gress.Common.Dict.{get, put}
use gress.Errors.CircuitBreaker
use gress.Errors.CircuitBreaker.{CircuitBreaker, CircuitBreakerConfig, default_config}
use gress.Errors.Registry.{Registry, Entry, find, get_or_create, new_registry, reset_all}
use gress.Errors.Registry.Laws.{
  or_else, map_reset, find-get_or_create, find-get_or_create_ne, shared_config_renames,
  find-reset_all,
}

abbrev callers : ℕ → CircuitBreakerConfig
callers p = record {
  name = "caller";
  failure_threshold = 3;
  success_threshold = 1;
  timeout = pos 10;
  max_concurrent_requests = 1;
  notifies = false;
}

abbrev entry_a : Entry
entry_a = record {
  config_at = 0;
  breaker = CircuitBreaker.new (record (callers 0) { name = "a" }) (pos 5);
}

abbrev with_a : Registry
with_a = get_or_create (new_registry callers 2) "a" (some 0) (pos 5)

lookup_a : get with_a.breakers "a" ≡ some entry_a
unfolding get_or_create new_registry get put
lookup_a = refl

lookup_b : get with_a.breakers "b" ≡ none
unfolding get_or_create new_registry get put
lookup_b = refl

b≢a : ◌≢◌ {A = String} "b" "a"
b≢a p = false≢true ((eq_iff "b" "a").1 p)

find-get_or_create_example :
    find (get_or_create with_a "b" none (pos 9)) "b"
    ≡ some (or_else (find with_a "b") (CircuitBreaker.new (default_config "b") (pos 9)))
find-get_or_create_example = find-get_or_create with_a "b" none (pos 9)

find-get_or_create_ne_example :
    find (get_or_create with_a "b" (some 1) (pos 9)) "a" ≡ find with_a "a"
find-get_or_create_ne_example =
    find-get_or_create_ne with_a "b" "a" (some 1) (pos 9) entry_a lookup_a
      (unfold get_or_create new_registry get put in omega arith) (λ e. ground arith) b≢a

shared_config_renames_example :
    (b : CircuitBreaker) × (find (get_or_create with_a "b" (some 0) (pos 9)) "a" ≡ some b)
    × (b.config.name ≡ "b")
shared_config_renames_example =
    shared_config_renames with_a "b" "a" (pos 9) entry_a lookup_a lookup_b b≢a

find-reset_all_example :
    find (reset_all (λ name. pos 30) with_a) "a" ≡ map_reset (pos 30) (find with_a "a")
find-reset_all_example = find-reset_all with_a (λ name. pos 30) "a"
