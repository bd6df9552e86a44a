-- ===== src/Profile/Slots.antt =====
-- The arrays of `buildProfile`: whatever order Go ranges over the caches in, they hold every location
-- and every function in the order of the IDs.
use wzprof.Base.{
  ℕ, zero, suc, ◌+◌, ◌-◌, ◌≤◌, ◌<◌, ◌≡◌, ◌≢◌, refl, sym, ap, ap₂, subst, ◌∙◌, List, [], ◌∷◌, ◌⊎◌,
  map, Option, none, some, length, All, ok, inl, inr, lt→ltb, le→leb, arith, set, get_or, replicate,
}
use wzprof.Trace.{Function}
use wzprof.Profile.{
  Location, Functions, Locations, Caches, no_caches, PprofSample, SampleType, fill, build_samples,
  build_profile,
}
use wzprof.Profile.Places.{AreBuilt, build_samples-AreBuilt}
use wzprof.Profile.Ids.{
  AreNumbered, AreSamples, SamplesIn, AllLinesIn, build_samples_lem, no_caches-IsDense,
}

-- The elements of a cache.
abbrev pub values : {K A : Type 0} → List (K × A) → List A
values xs = map (λ e. e.1) xs

-- `x` is one of the elements of the cache.
abbrev pub IsIn : {K A : Type 0} → A → List (K × A) → Type 0
IsIn x [] = ⊥
IsIn x ((k, y) ∷ ys) = (x ≡ y) ⊎ IsIn x ys

-- An order in which Go may range over the map: its elements, and all of them.
abbrev pub IsRange : {K A : Type 0} → List (K × A) → List (K × A) → Type 0
IsRange ys xs = All (λ y. IsIn y xs) (values ys) × All (λ x. IsIn x ys) (values xs)

module _ {A : Type 0} where
  head_index : (id : A → ℕ) (x : A) (n : ℕ) → id x ≡ n → id x - n ≡ 0
  head_index id x n e = omega arith

  next_index : (id : A → ℕ) (x : A) (n : ℕ) → suc n ≤ id x → id x - n ≡ suc (id x - suc n)
  next_index id x n e = omega arith

  abbrev IsFilled : List (Option A) → ℕ → Type 0
  IsFilled slots i = get_or slots i none ≢ none

  some≢none : (x : A) → some x ≢ none
  some≢none x e = cc

  get_or-set-IsFilled :
      (slots : List (Option A)) (i j : ℕ) (x : A)
      → IsFilled slots j
      → IsFilled (set slots i (some x)) j
  get_or-set-IsFilled [] i j x h = h
  get_or-set-IsFilled (s ∷ slots) zero zero x h = some≢none x
  get_or-set-IsFilled (s ∷ slots) zero (suc j) x h = h
  get_or-set-IsFilled (s ∷ slots) (suc i) zero x h = h
  get_or-set-IsFilled (s ∷ slots) (suc i) (suc j) x h = get_or-set-IsFilled slots i j x h

  set-IsFilled :
      (slots : List (Option A)) (i : ℕ) (x : A)
      → i < length slots
      → IsFilled (set slots i (some x)) i
  set-IsFilled [] i x h = absurd (omega arith)
  set-IsFilled (s ∷ slots) zero x h = some≢none x
  set-IsFilled (s ∷ slots) (suc i) x h = set-IsFilled slots i x (omega arith)

module _ {K A : Type 0} (id : A → ℕ) where
  -- Every slot is empty or holds the element of its ID.
  abbrev Partial : List (Option A) → List (K × A) → Type 0
  Partial [] [] = Unit {0}
  Partial [] (x ∷ xs) = ⊥
  Partial (s ∷ slots) [] = ⊥
  Partial (s ∷ slots) ((k, x) ∷ xs) = ((s ≡ none) ⊎ (s ≡ some x)) × Partial slots xs

  Partial-none : (xs : List (K × A)) → Partial (replicate (length xs) none) xs
  Partial-none [] = tt
  Partial-none ((k, x) ∷ xs) = (inl refl, Partial-none xs)

  length-Partial :
      (slots : List (Option A)) (xs : List (K × A)) → Partial slots xs → length slots ≡ length xs
  length-Partial [] [] h = refl
  length-Partial [] (x ∷ xs) h = elim h [ ]
  length-Partial (s ∷ slots) [] h = elim h [ ]
  length-Partial (s ∷ slots) ((k, x) ∷ xs) h = ap suc (length-Partial slots xs h.1)

  IsIn-id :
      (n : ℕ) (xs : List (K × A)) (x : A)
      → AreNumbered id n xs
      → IsIn x xs
      → (n ≤ id x) × (id x < n + length xs)
  IsIn-id n [] x h m = elim m [ ]
  IsIn-id n ((k, y) ∷ ys) x h (inl e) = rw e (omega arith, omega arith)
  IsIn-id n ((k, y) ∷ ys) x h (inr m) =
      let r = IsIn-id (suc n) ys x h.1 m in (omega arith, omega arith)

  Partial-set :
      (i n : ℕ) (slots : List (Option A)) (xs : List (K × A)) (x : A)
      → AreNumbered id n xs
      → IsIn x xs
      → id x ≡ n + i
      → Partial slots xs
      → Partial (set slots i (some x)) xs
  Partial-set i n [] [] x h m e p = elim m [ ]
  Partial-set i n [] (y ∷ ys) x h m e p = elim p [ ]
  Partial-set i n (s ∷ slots) [] x h m e p = elim p [ ]
  Partial-set zero n (s ∷ slots) ((k, y) ∷ ys) x h (inl q) e p = (inr (ap some q), p.1)
  Partial-set zero n (s ∷ slots) ((k, y) ∷ ys) x h (inr m) e p =
      absurd (omega (arith, IsIn-id (suc n) ys x h.1 m))
  Partial-set (suc i) n (s ∷ slots) ((k, y) ∷ ys) x h (inl q) e p =
      absurd (omega (arith, ap id q, h.0))
  Partial-set (suc i) n (s ∷ slots) ((k, y) ∷ ys) x h (inr m) e p =
      (p.0, Partial-set i (suc n) slots ys x h.1 m (omega arith) p.1)

  -- The loop that fills the slots, from any slots that are right so far.
  fill_lem :
      (ys xs : List (K × A)) (slots : List (Option A))
      → AreNumbered id 1 xs
      → All (λ y. IsIn y xs) (values ys)
      → Partial slots xs
      → (out : List (Option A)) × (fill id (values ys) slots ≡ ok out)
        × Partial out xs
        × ((j : ℕ) → IsFilled slots j → IsFilled out j)
        × ((y : A) → IsIn y ys → IsFilled out (id y - 1))
  unfolding fill
  fill_lem [] xs slots num m p = (slots, refl, p, (λ j h. h), λ y h. elim h [ ])
  fill_lem ((k, y) ∷ ys) xs slots num m p =
      let bounds = IsIn-id 1 xs y num m.0 in
      let len = length-Partial slots xs p in
      let (out, e, q, keeps, fills) =
        fill_lem ys xs (set slots (id y - 1) (some y)) num m.1
          (Partial-set (id y - 1) 1 slots xs y num m.0 (omega arith) p) in
      (
        out,
        rw (lt→ltb 0 (id y) (omega arith), le→leb (id y) (length slots) (omega arith)) e,
        q,
        (λ j h. keeps j (get_or-set-IsFilled slots (id y - 1) j y h)),
        λ z h. elim h [
          | inl e ↦
              subst (λ z. IsFilled out (id z - 1)) (sym e)
                (keeps (id y - 1) (set-IsFilled slots (id y - 1) y (omega arith)))
          | inr h ↦ fills z h
        ],
      )

  all_filled :
      (n : ℕ) (xs : List (K × A)) (slots : List (Option A))
      → AreNumbered id n xs
      → Partial slots xs
      → ((x : A) → IsIn x xs → IsFilled slots (id x - n))
      → slots ≡ map some (values xs)
  all_filled n [] [] num p f = refl
  all_filled n [] (s ∷ slots) num p f = elim p [ ]
  all_filled n (x ∷ xs) [] num p f = elim p [ ]
  all_filled n ((k, x) ∷ xs) (s ∷ slots) num p f =
      ap₂ ◌∷◌
        (elim (p.0) [
          | inl e ↦ absurd (f x (inl refl) (rw (head_index id x n num.0) e))
          | inr e ↦ e
        ])
        (all_filled (suc n) xs slots num.1 p.1 (λ z m.
          subst (IsFilled (s ∷ slots)) (next_index id z n (IsIn-id (suc n) xs z num.1 m).0)
            (f z (inr m))))

  -- Ranging over the cache in any order puts its elements in the order of the IDs.
  fill_range :
      (ys xs : List (K × A))
      → AreNumbered id 1 xs
      → IsRange ys xs
      → fill id (map (λ e. e.1) ys) (replicate (length xs) none) ≡ ok (map some (values xs))
  fill_range ys xs num (m, all) =
      let (out, e, p, keeps, fills) =
        fill_lem ys xs (replicate (length xs) none) num m (Partial-none xs) in
      e ∙ ap ok (all_filled 1 xs out num p (λ x h. fills x (each_in xs x all h)))
    where
      each_in :
          (zs : List (K × A)) (x : A) → All (λ z. IsIn z ys) (values zs) → IsIn x zs → IsIn x ys
      each_in [] x a h = elim h [ ]
      each_in ((k, z) ∷ zs) x a (inl e) = subst (λ z. IsIn z ys) (sym e) a.0
      each_in ((k, z) ∷ zs) x a (inr h) = each_in zs x a.1 h

-- The profile that `buildProfile` makes of the samples, for any orders in which Go ranges over its
-- two maps: there is one, it has the samples given in their order, each with its values, cut to the
-- number of types, and with the IDs of the locations that the cache has under the functions and PCs
-- of its frames, in their order; and its arrays hold the locations and the functions at the places
-- of their IDs, which count up from 1. Every location of a sample and every function of a line is
-- in its array. The samples' stacks have a PC for each function, and the samples have a value for
-- each type.
pub build_profile_lem :
    (symbols : Function → ℕ → ℕ × List Location) (range_locations : Locations → Locations)
    (range_functions : Functions → Functions) (types : ℕ) (samples : List SampleType)
    → ((xs : Locations) → IsRange (range_locations xs) xs)
    → ((xs : Functions) → IsRange (range_functions xs) xs)
    → AreSamples types samples
    → (out : List PprofSample) × (c : Caches) × (build_samples symbols types samples no_caches
        ≡ ok (out, c))
      × (build_profile symbols range_locations range_functions types samples
          ≡ ok (record {
            samples = out;
            locations = map some (values c.locations);
            functions = map some (values c.functions);
          }))
      × AreNumbered (λ l. l.id) 1 c.locations
      × AreNumbered (λ f. f.id) 1 c.functions
      × (length out ≡ length samples)
      × SamplesIn (length c.locations) out
      × AllLinesIn (length c.functions) c.locations
      × AreBuilt types c.locations samples out
unfolding build_profile
build_profile_lem symbols rl rf types samples ranges_l ranges_f h =
    let (out, c, e, dense, grown, all, len) =
      build_samples_lem symbols types samples no_caches no_caches-IsDense h in
    (
      out,
      c,
      e,
      rw
          (
            e,
            fill_range (λ l. l.id) (rl c.locations) c.locations dense.locations
                (ranges_l c.locations),
            fill_range (λ f. f.id) (rf c.functions) c.functions dense.functions
                (ranges_f c.functions),
          )
          refl,
      dense.locations,
      dense.functions,
      len,
      all,
      dense.lines,
      build_samples-AreBuilt symbols types samples no_caches c out e,
    )
