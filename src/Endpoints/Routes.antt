-- ===== src/Endpoints/Routes.antt =====
-- Which entry answers a request.
use wzprof.Base.{
  ℕ, ◌≡◌, ◌≢◌, refl, sym, ap, ◌∙◌, inl, inr, List, [], ◌∷◌, ◌++◌, map, Option, none, some, ◌==◌,
  ==→eq, ==→ne, if◌then◌else◌, Bool-cases, All,
}
use wzprof.WasmBin.{bytes_eq}
use wzprof.WasmBin.Bytes.{bytes_eq→eq, bytes_eq→ne}
use wzprof.Endpoints.{
  Profiler, ProfileEntry, Request, cut_prefix, debug_pprof, entry_of, Answer, served, index, answer,
  look_up, handler, guest_entry, host_entries,
}

-- A request that an entry answers: its path is the entry's behind the prefix, and no entry before it has
-- the same one.
abbrev pub Answers : List ProfileEntry → List ℕ → ProfileEntry → Type 0
Answers entries path e =
    (before : List ProfileEntry) × (after : List ProfileEntry) × (entries ≡ before ++ (e ∷ after))
    × (path ≡ debug_pprof ++ e.href)
    × All (λ (b : ProfileEntry). b.href ≢ e.href) before

-- What becomes of a request: the first entry with its path answers it, or, exactly where there is none,
-- the page of all entries.
abbrev pub IsAnswered :
    List ProfileEntry → List ProfileEntry → List ProfileEntry → List ℕ → Answer → Type 0
IsAnswered entries guest host path (served e) = Answers entries path e
IsAnswered entries guest host path (index g h) =
    All (λ (e : ProfileEntry). path ≢ debug_pprof ++ e.href) entries × (g ≡ guest) × (h ≡ host)

-- What is left of a path behind a prefix.
Cuts : List ℕ → List ℕ → Option (List ℕ) → Type 0
Cuts prefix path none = (rest : List ℕ) → path ≢ prefix ++ rest
Cuts prefix path (some rest) = path ≡ prefix ++ rest

tail_cons : {x y : ℕ} {xs ys : List ℕ} → x ∷ xs ≡ y ∷ ys → xs ≡ ys
tail_cons e = cc

head_cons : {x y : ℕ} {xs ys : List ℕ} → x ∷ xs ≡ y ∷ ys → x ≡ y
head_cons e = cc

Cuts-cons :
    {c d : ℕ} (cs ds : List ℕ) (cut : Option (List ℕ))
    → c ≡ d
    → Cuts cs ds cut
    → Cuts (c ∷ cs) (d ∷ ds) cut
unfolding Cuts
Cuts-cons cs ds none e h = λ rest p. h rest (tail_cons p)
Cuts-cons cs ds (some rest) e h = cc (e, h)

cut_prefix-Cuts : (prefix path : List ℕ) → Cuts prefix path (cut_prefix prefix path)
unfolding cut_prefix Cuts
cut_prefix-Cuts [] path = refl
cut_prefix-Cuts (c ∷ cs) [] = λ rest e. cc
cut_prefix-Cuts (c ∷ cs) (d ∷ ds) = elim (Bool-cases (c == d)) [
  | inr n ↦ rw (n) (λ rest e. absurd (==→ne c d n (sym (head_cons e))))
  | inl y ↦ rw (y) (Cuts-cons cs ds (cut_prefix cs ds) (==→eq c d y) (cut_prefix-Cuts cs ds))
]

-- The entry that the loop stops at.
Finds : List ProfileEntry → List ℕ → Option ProfileEntry → Type 0
Finds entries href none = All (λ (e : ProfileEntry). e.href ≢ href) entries
Finds entries href (some e) =
    (before : List ProfileEntry) × (after : List ProfileEntry) × (entries ≡ before ++ (e ∷ after))
    × (e.href ≡ href)
    × All (λ (b : ProfileEntry). b.href ≢ e.href) before

Finds-cons :
    (x : ProfileEntry) (entries : List ProfileEntry) (href : List ℕ) (found : Option ProfileEntry)
    → x.href ≢ href
    → Finds entries href found
    → Finds (x ∷ entries) href found
unfolding Finds
Finds-cons x entries href none n h = (n, h)
Finds-cons x entries href (some e) n (before, after, split, same, rest) = (
  x ∷ before,
  after,
  ap (λ (es : List ProfileEntry). x ∷ es) split,
  same,
  ((λ p. n (p ∙ same)), rest),
)

entry_of-Finds :
    (href : List ℕ) (entries : List ProfileEntry) → Finds entries href (entry_of href entries)
unfolding entry_of Finds
entry_of-Finds href [] = tt
entry_of-Finds href (x ∷ entries) = elim (Bool-cases (bytes_eq x.href href)) [
  | inl y ↦ rw (y) ([], entries, refl, bytes_eq→eq x.href href y, tt)
  | inr n ↦ rw (n) (
      Finds-cons x entries href (entry_of href entries) (bytes_eq→ne x.href href n)
        (entry_of-Finds href entries))
]

tail_text : (prefix : List ℕ) {xs ys : List ℕ} → prefix ++ xs ≡ prefix ++ ys → xs ≡ ys
tail_text [] e = e
tail_text (c ∷ cs) e = tail_text cs (tail_cons e)

All-weaken :
    {P Q : ProfileEntry → Type 0}
    → ((e : ProfileEntry) → P e → Q e)
    → (es : List ProfileEntry) → All P es
    → All Q es
All-weaken w [] h = tt
All-weaken w (e ∷ es) (p, h) = (w e p, All-weaken w es h)

All-every :
    {P : ProfileEntry → Type 0} → ((e : ProfileEntry) → P e) → (es : List ProfileEntry) → All P es
All-every w [] = tt
All-every w (e ∷ es) = (w e, All-every w es)

answer-IsAnswered :
    (entries g h : List ProfileEntry) (path href : List ℕ)
    → path ≡ debug_pprof ++ href
    → (found : Option ProfileEntry) → Finds entries href found
    → IsAnswered entries g h path (answer (index g h) found)
unfolding answer Finds
answer-IsAnswered entries g h path href p none none_of =
    (All-weaken (λ e n q. n (sym (tail_text debug_pprof (sym p ∙ q)))) entries none_of, refl, refl)
answer-IsAnswered entries g h path href p (some e) (before, after, split, same, first) =
    (before, after, split, p ∙ ap (λ (x : List ℕ). debug_pprof ++ x) (sym same), first)

look_up-IsAnswered :
    (entries g h : List ProfileEntry) (path : List ℕ) (cut : Option (List ℕ))
    → Cuts debug_pprof path cut
    → IsAnswered entries g h path (look_up (index g h) entries cut)
unfolding look_up Cuts
look_up-IsAnswered entries g h path none c = (All-every (λ e. c e.href) entries, refl, refl)
look_up-IsAnswered entries g h path (some href) c =
    answer-IsAnswered entries g h path href c (entry_of href entries) (entry_of-Finds href entries)

-- Of the entries of the guest, or of the host when the query has `host`, the first whose path behind
-- /debug/pprof/ is the path of the request answers it; where there is none, and only there, the answer is
-- the page of all entries, sorted.
pub handler-IsAnswered :
    (sort : List ProfileEntry → List ProfileEntry) (profilers : List Profiler)
    (profiles : List (List ℕ × ℕ)) (goroutines : ℕ) (r : Request)
    → IsAnswered
        (if r.host then host_entries profiles goroutines else map guest_entry profilers)
        (sort (map guest_entry profilers))
        (sort (host_entries profiles goroutines))
        r.path
        (handler sort profilers profiles goroutines r)
unfolding handler
handler-IsAnswered sort profilers profiles goroutines r =
    look_up-IsAnswered
      (if r.host then host_entries profiles goroutines else map guest_entry profilers)
      (sort (map guest_entry profilers)) (sort (host_entries profiles goroutines)) r.path
      (cut_prefix debug_pprof r.path) (cut_prefix-Cuts debug_pprof r.path)
