-- ===== src/Errors/Registry.antt =====
-- pkg/errors/circuit_breaker.go: CircuitBreakerRegistry. A breaker holds a pointer to its
-- configuration, which the caller may pass again for another name; so configurations live on a
-- heap here, and the registry's entries hold addresses. A method holds the registry's lock for
-- each access of the map; the two lookups of GetOrCreate are one here, since under the sequence
-- modelled nothing comes between them.
pub mod Laws
mod Tests
use gress.Common.{
  ℕ, ◌+◌, String, Bool, true, false, Option, none, some, List, [], ◌∷◌, ◌==◌, if◌then◌else◌, ℤ,
  string_key,
}
use gress.Common.Dict.{Dict, get, put}
use gress.Errors.CircuitBreaker
use gress.Errors.CircuitBreaker.{CircuitBreaker, CircuitBreakerConfig, default_config, reset}

pub record Entry : Type 0 where
  pub config_at : ℕ
  pub breaker : CircuitBreaker

-- `heap` holds every configuration; addresses from `next` on are not in use.
pub record Registry : Type 0 where
  pub heap : ℕ → CircuitBreakerConfig
  pub next : ℕ
  pub breakers : Dict String Entry

pub update : (ℕ → CircuitBreakerConfig) → ℕ → CircuitBreakerConfig → ℕ → CircuitBreakerConfig
update heap p config q = if q == p then config else heap q

-- The breaker of an entry, with the configuration that its pointer shows at present.
pub view : Registry → Entry → CircuitBreaker
view r entry = record entry.breaker { config = r.heap entry.config_at }

-- NewCircuitBreakerRegistry, over a heap that holds the caller's configurations.
pub new_registry : (ℕ → CircuitBreakerConfig) → ℕ → Registry
new_registry heap next = record { heap = heap; next = next; breakers = [] }

-- cb := NewCircuitBreaker(config); r.breakers[name] = cb, at the address `p`
pub create : Registry → String → ℕ → CircuitBreakerConfig → ℤ → Registry
create r name p config now = record r {
  heap = update r.heap p config;
  breakers =
      put r.breakers name (record { config_at = p; breaker = CircuitBreaker.new config now });
}

-- The part of GetOrCreate that runs if the name is not found: a nil configuration becomes a new
-- default one, and any other is renamed in place.
pub create_missing : Registry → String → Option ℕ → ℤ → Registry
unfolding create
create_missing r name none now =
    create (record r { next = r.next + 1 }) name r.next (default_config name) now
create_missing r name (some p) now = create r name p (record (r.heap p) { name = name }) now

pub choose : Option Entry → Registry → String → Option ℕ → ℤ → Registry
unfolding create_missing
choose (some entry) r name config now = r
choose none r name config now = create_missing r name config now

-- GetOrCreate; what it returns is the breaker that `find` then finds under the name.
pub get_or_create : Registry → String → Option ℕ → ℤ → Registry
unfolding choose
get_or_create r name config now = choose (get r.breakers name) r name config now

abbrev pub view_option : Registry → Option Entry → Option CircuitBreaker
view_option r none = none
view_option r (some entry) = some (view r entry)

-- Get
pub find : Registry → String → Option CircuitBreaker
unfolding view
find r name = view_option r (get r.breakers name)

-- Reset, over the breakers in the order in which the map is visited; `now` is the reading of the
-- clock for each.
pub reset_entries :
    (String → ℤ) → (ℕ → CircuitBreakerConfig) → Dict String Entry → Dict String Entry
reset_entries now heap [] = []
reset_entries now heap ((name, entry) ∷ rest) =
    (
      name,
      record entry {
        breaker = reset (now name) (record entry.breaker { config = heap entry.config_at });
      },
    )
    ∷ reset_entries now heap rest

pub reset_all : (String → ℤ) → Registry → Registry
unfolding reset_entries
reset_all now r = record r { breakers = reset_entries now r.heap r.breakers }
