-- ===== src/Profiling/Protocol.antt =====
-- The order of `Prepare` and the constructors of the profilers.
use Prim.Native.String.{String}
use wzprof.Base.{
  ℕ, ◌≡◌, refl, ap, sym, subst, List, Bool, true, false, not, ◌&&◌, if◌then◌else◌, ok, panic,
}
use wzprof.Cpu.{new_cpu_profiler}
use wzprof.Mem.{new_memory_profiler}
use wzprof.Profiling.{
  Language, unknown, golang, python311, Profiling, profiling_of, prepare, cpu_profiler,
  memory_profiler,
}

-- A language whose symbolizer the code must have.
abbrev pub is_known : Language → Bool
is_known unknown = false
is_known golang = true
is_known python311 = true

abbrev pub FollowsProtocol : Bool → Bool → Bool → ℕ → Profiling → Type 0
FollowsProtocol made host inuse now p =
    (cpu_profiler host p ≡ panic)
    × (memory_profiler inuse now p ≡ panic)
    × ((prepare made p).0 ≡ (is_known p.lang && not made))
    × (cpu_profiler host (prepare made p).1 ≡ (if made then ok (new_cpu_profiler host) else panic))
    × (memory_profiler inuse now (prepare made p).1
        ≡ (if made then ok (new_memory_profiler inuse now) else panic))

fresh-FollowsProtocol :
    (lang : Language) (only filtered : List String) (made host inuse : Bool) (now : ℕ)
    → FollowsProtocol made host inuse now (profiling_of lang only filtered)
unfolding prepare cpu_profiler memory_profiler
fresh-FollowsProtocol unknown only filtered true host inuse now = (refl, refl, refl, refl, refl)
fresh-FollowsProtocol unknown only filtered false host inuse now = (refl, refl, refl, refl, refl)
fresh-FollowsProtocol golang only filtered true host inuse now = (refl, refl, refl, refl, refl)
fresh-FollowsProtocol golang only filtered false host inuse now = (refl, refl, refl, refl, refl)
fresh-FollowsProtocol python311 only filtered true host inuse now = (refl, refl, refl, refl, refl)
fresh-FollowsProtocol python311 only filtered false host inuse now = (refl, refl, refl, refl, refl)

-- On a `Profiling` that is not prepared, both constructors panic. `Prepare` reports that the symbolizer
-- could not be made for Go and Python alone; after it, reported or not, both constructors return when
-- the symbolizer was made, and panic when it was not.
pub constructors_protocol :
    (p : Profiling) (made host inuse : Bool) (now : ℕ)
    → p.prepare_called ≡ false
    → FollowsProtocol made host inuse now p
constructors_protocol p made host inuse now h =
    subst (FollowsProtocol made host inuse now)
      (ap (λ (c : Bool). record p { prepare_called = c }) (sym h))
      (fresh-FollowsProtocol p.lang p.only_functions p.filtered_functions made host inuse now)
