-- ===== src/Errors/Registry/Laws.antt =====
-- What GetOrCreate, Get and Reset promise, and what sharing a configuration breaks.
use text.Mathlib.TextEquality.{eq_iff}
use text.Mathlib.TextPositions.{eq_refl}
use gress.Common.{ℕ, ◌<◌, ◌≡◌, ◌≢◌, refl, String, Option, none, some, [], ◌∷◌, ℤ, arith, string_key}
use gress.Common.Dict.{Dict, get, get-put}
use gress.Errors.CircuitBreaker
use gress.Errors.CircuitBreaker.{CircuitBreaker, CircuitBreakerConfig, reset, default_config}
use gress.Errors.Registry.{
  Registry, Entry, update, view, find, choose, get_or_create, view_option, reset_entries, reset_all,
}

-- The configuration that a new breaker gets.
abbrev pub wanted : Registry → String → Option ℕ → CircuitBreakerConfig
wanted r name none = default_config name
wanted r name (some p) = record (r.heap p) { name = name }

abbrev pub or_else : Option CircuitBreaker → CircuitBreaker → CircuitBreaker
or_else none b = b
or_else (some a) b = a

created :
    (o : Option Entry) (r : Registry) (name : String) (config : Option ℕ) (now : ℤ)
    → get r.breakers name ≡ o
    → view_option (choose o r name config now) (get (choose o r name config now).breakers name)
      ≡ some (or_else (view_option r o) (CircuitBreaker.new (wanted r name config) now))
unfolding choose view update CircuitBreaker.new
created (some entry) r name config now e = rw e
created none r name none now e = simp (get-put, eq_refl) (ground arith)
created none r name (some p) now e = simp (get-put, eq_refl) (ground arith)

-- After GetOrCreate, Get finds under the name the breaker that was there before, unchanged, or else
-- a new one, closed, with the given configuration renamed or the default one.
pub find-get_or_create :
    (r : Registry) (name : String) (config : Option ℕ) (now : ℤ)
    → find (get_or_create r name config now) name
      ≡ some (or_else (find r name) (CircuitBreaker.new (wanted r name config) now))
unfolding get_or_create find
find-get_or_create r name config now = created (get r.breakers name) r name config now refl

missing_ne :
    (o : Option Entry) (r : Registry) (name j : String) (config : Option ℕ) (now : ℤ)
    (entry : Entry)
    → get r.breakers j ≡ some entry
    → entry.config_at < r.next
    → config ≢ some entry.config_at
    → name ≢ j
    → view_option (choose o r name config now) (get (choose o r name config now).breakers j)
      ≡ some (view r entry)
unfolding choose view update
missing_ne (some other) r name j config now entry e f c n = rw e
missing_ne none r name j none now entry e f c n = simp get-put (ground (arith, eq_iff name j))
missing_ne none r name j (some p) now entry e f c n = simp get-put (ground (arith, eq_iff name j))

-- GetOrCreate leaves the breaker of every other name as it was, if that breaker's configuration is
-- not the one passed.
pub find-get_or_create_ne :
    (r : Registry) (name j : String) (config : Option ℕ) (now : ℤ) (entry : Entry)
    → get r.breakers j ≡ some entry
    → entry.config_at < r.next
    → config ≢ some entry.config_at
    → name ≢ j
    → find (get_or_create r name config now) j ≡ find r j
unfolding get_or_create find
find-get_or_create_ne r name j config now entry e f c n =
    rw e (missing_ne (get r.breakers name) r name j config now entry e f c n)

-- A configuration that is passed to GetOrCreate a second time, for a new name, renames the breaker
-- that was made with it first: that breaker's errors and callbacks carry the new name.
pub shared_config_renames :
    (r : Registry) (name j : String) (now : ℤ) (entry : Entry)
    → get r.breakers j ≡ some entry
    → get r.breakers name ≡ none
    → name ≢ j
    → (b : CircuitBreaker) × (find (get_or_create r name (some entry.config_at) now) j ≡ some b)
      × (b.config.name ≡ name)
unfolding get_or_create find update view
shared_config_renames r name j now entry e m n = (
  record entry.breaker { config = record (r.heap entry.config_at) { name = name } },
  rw m (simp get-put (ground (arith, eq_iff name j))),
  refl,
)

reset_at : Registry → (String → ℤ) → String → Option Entry → Option CircuitBreaker
reset_at r now name none = none
reset_at r now name (some entry) = some (reset (now name) (view r entry))

get-reset_entries :
    (r : Registry) (now : String → ℤ) (m : Dict String Entry) (name : String)
    → view_option r (get (reset_entries now r.heap m) name) ≡ reset_at r now name (get m name)
unfolding reset_entries get reset_at view reset
get-reset_entries r now [] name = refl
get-reset_entries r now ((j, entry) ∷ m) name =
    ground (arith, eq_iff j name, get-reset_entries r now m name)

abbrev pub map_reset : ℤ → Option CircuitBreaker → Option CircuitBreaker
map_reset now none = none
map_reset now (some b) = some (reset now b)

-- Reset of the registry resets the breaker of every name, and adds or removes none.
pub find-reset_all :
    (r : Registry) (now : String → ℤ) (name : String)
    → find (reset_all now r) name ≡ map_reset (now name) (find r name)
unfolding reset_all find reset_at
find-reset_all r now name = ground (arith, get-reset_entries r now r.breakers name)
