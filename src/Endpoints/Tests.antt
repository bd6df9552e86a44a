-- ===== src/Endpoints/Tests.antt =====
-- Requests at concrete profilers.
use wzprof.Base.{◌≡◌, refl, List, [], ◌∷◌, map, true, false}
use wzprof.Endpoints.{
  Profiler, Request, text, handler, guest_entry, host_entries, served, index, fixed_entry, host_cpu,
  descriptions_by_name,
}
use wzprof.Endpoints.Routes.{IsAnswered, handler-IsAnswered}

abbrev two_profilers : List Profiler
two_profilers =
    record { name = text "profile"; desc = text "time"; count = 3 }
    ∷ record { name = text "allocs"; desc = text "memory"; count = 5 }
    ∷ []

abbrev for_profile : Request
for_profile = record { path = text "/debug/pprof/profile"; host = false }

abbrev for_host_profile : Request
for_host_profile = record { path = text "/debug/pprof/profile"; host = true }

abbrev for_page : Request
for_page = record { path = text "/debug/pprof/"; host = false }

-- The guest's profile, that of the host, and the page.
guest_served :
    handler (λ es. es) two_profilers [] 7 for_profile
    ≡ served (guest_entry (record { name = text "profile"; desc = text "time"; count = 3 }))
unfolding handler wzprof.Endpoints.entry_of wzprof.WasmBin.bytes_eq
guest_served = refl

host_served :
    handler (λ es. es) two_profilers [] 7 for_host_profile ≡ served (fixed_entry "profile" host_cpu)
unfolding handler wzprof.Endpoints.entry_of wzprof.WasmBin.bytes_eq
host_served = refl

page_served :
    handler (λ es. es) two_profilers [] 7 for_page
    ≡ index (map guest_entry two_profilers) (host_entries [] 7)
unfolding handler wzprof.Endpoints.entry_of wzprof.WasmBin.bytes_eq
page_served = refl

names_described :
    descriptions_by_name (map guest_entry two_profilers) []
    ≡ (text "profile", text "time") ∷ (text "allocs", text "memory") ∷ []
unfolding descriptions_by_name wzprof.WasmBin.bytes_eq guest_entry
names_described = refl

handler-IsAnswered_example :
    IsAnswered
      (map guest_entry two_profilers)
      (map guest_entry two_profilers)
      (host_entries [] 7)
      (text "/debug/pprof/profile")
      (handler (λ es. es) two_profilers [] 7 for_profile)
handler-IsAnswered_example = handler-IsAnswered (λ es. es) two_profilers [] 7 for_profile
