-- ===== src/MiniFramework/Tests.antt =====
-- The demo of mini_cache_ttl.py with numbers, ten ticks of the clock to a second, and the theorem at
-- its cache.
use assets_system.Prelude.Dict
use assets_system.Prelude.Dict.{Dict}
use assets_system.Prelude.{ℕ, ◌≡◌, refl, none, some, [], ◌∷◌, ℕ_discrete}
use assets_system.MiniFramework.MiniCacheTtl
use assets_system.MiniFramework.MiniCacheTtl.{is_over, pop_first}

program : Unit {0}
unfolding is_over pop_first MiniCacheTtl.init MiniCacheTtl.move_to_end MiniCacheTtl.get
    MiniCacheTtl.set MiniCacheTtl.delete MiniCacheTtl.remove_expired MiniCacheTtl.cleanup Dict.get
    Dict.set Dict.remove ℕ_discrete
program = tt

-- a cache of size 2 that is full
abbrev full : MiniCacheTtl.MiniCacheTtl ℕ ℕ
full = record { default_ttl = 2; max_size = some 2; store = (1, (10, 2)) ∷ (2, (20, 3)) ∷ [] }

set_evicts : (MiniCacheTtl.set ℕ_discrete 1 3 30 none full).store ≡ (2, (20, 3)) ∷ (3, (30, 3)) ∷ []
unfolding program
set_evicts = refl

cleanup_removes : (MiniCacheTtl.cleanup ℕ_discrete 3 full).store ≡ (2, (20, 3)) ∷ []
unfolding program
cleanup_removes = refl
