-- ===== src/Routing/Cumulative.antt =====
-- The histogram of internal/routing/pipeline.go is cumulative.
use grunyas.Prelude.{
  ℕ, ◌+◌, String, str_eq, eq_iff, ◌≡◌, inl, inr, refl, sym, ap, ◌∙◌, subst, arith, Option, none,
  some, List, [], ◌∷◌, length, keep, map, leb, Bool-cases, Option-cases, if◌then◌else◌,
}
use grunyas.Prelude.Assoc.{Assoc, get, put, get-put}
use grunyas.Routing.Histogram.{
  PortHistogram, duration_bucket_bounds, new_histogram, add_to_buckets, observe_duration,
  observe_port, observations,
}

-- The durations of one port, the last one first, before those that were `seen`.
abbrev pub durations_of : String → List (String × ℕ) → List ℕ → List ℕ
durations_of port [] seen = seen
durations_of port ((p, d) ∷ rest) seen =
    durations_of port rest (if str_eq p port then d ∷ seen else seen)

abbrev total : List ℕ → ℕ
total [] = 0
total (d ∷ ds) = d + total ds

-- The number of durations up to a bound.
abbrev at_most : ℕ → List ℕ → ℕ
at_most bound ds = length (keep (λ d. leb d bound) ds)

-- What a histogram shows of the durations that it was given.
abbrev pub Shows : List ℕ → PortHistogram → Type 0
Shows ds h =
    (h.sum ≡ total ds)
    × (h.count ≡ length ds)
    × (h.buckets ≡ map (λ bound. at_most bound ds) duration_bucket_bounds)

abbrev pub ShowsAt : List ℕ → Option PortHistogram → Type 0
ShowsAt seen none = seen ≡ []
ShowsAt seen (some h) = Shows seen h

add_to_buckets-map :
    (d : ℕ) (ds bounds : List ℕ)
    → add_to_buckets d bounds (map (λ bound. at_most bound ds) bounds)
      ≡ map (λ bound. at_most bound (d ∷ ds)) bounds
unfolding add_to_buckets
add_to_buckets-map d ds [] = refl
add_to_buckets-map d ds (bound ∷ bounds) = elim (Bool-cases (leb d bound)) [
  | inl e ↦
      rw (e, add_to_buckets-map d ds bounds)
        (ap (λ n. n ∷ map (λ b. at_most b (d ∷ ds)) bounds) (omega arith))
  | inr e ↦ rw (e, add_to_buckets-map d ds bounds) refl
]

observe_duration-Shows :
    (d : ℕ) (ds : List ℕ) (h : PortHistogram) → Shows ds h → Shows (d ∷ ds) (observe_duration d h)
unfolding observe_duration
observe_duration-Shows d ds h (s, c, b) = (
  omega (arith, s),
  omega (arith, c),
  ap (add_to_buckets d duration_bucket_bounds) b ∙ add_to_buckets-map d ds duration_bucket_bounds,
)

observe_none :
    (d : ℕ) (seen : List ℕ) → seen ≡ [] → Shows (d ∷ seen) (observe_duration d new_histogram)
observe_none d seen e =
    subst (λ l. Shows (d ∷ l) (observe_duration d new_histogram)) (sym e)
      (observe_duration-Shows d [] new_histogram (refl, refl, refl))

-- A put at a key shows at it what was put, and elsewhere what was there.
put-ShowsAt :
    (p port : String) (h : PortHistogram) (a b : List ℕ) (m : Assoc PortHistogram)
    → (p ≡ port → Shows a h)
    → ShowsAt b (get port m)
    → ShowsAt (if str_eq p port then a else b) (get port (put p h m))
put-ShowsAt p port h a b m f g = elim (Bool-cases (str_eq p port)) [
  | inl e ↦ rw (get-put, e) (f ((eq_iff p port).0 e))
  | inr e ↦ rw (get-put, e) g
]

observe_port-ShowsAt :
    (p port : String) (d : ℕ) (seen : List ℕ) (m : Assoc PortHistogram)
    → ShowsAt seen (get port m)
    → ShowsAt (if str_eq p port then d ∷ seen else seen) (get port (observe_port p d m))
unfolding observe_port
observe_port-ShowsAt p port d seen m h = elim (Option-cases (get p m)) [
  | inl e ↦
      rw (e, observe_port)
        (put-ShowsAt p port (observe_duration d new_histogram) (d ∷ seen) seen m
          (λ k. observe_none d seen (subst (ShowsAt seen) (ap (λ x. get x m) (sym k) ∙ e) h)) h)
  | inr (old, e) ↦
      rw (e, observe_port)
        (put-ShowsAt p port (observe_duration d old) (d ∷ seen) seen m
          (λ k.
            observe_duration-Shows d seen old
              (subst (ShowsAt seen) (ap (λ x. get x m) (sym k) ∙ e) h))
          h)
]

observations-ShowsAt :
    (calls : List (String × ℕ)) (port : String) (seen : List ℕ) (m : Assoc PortHistogram)
    → ShowsAt seen (get port m)
    → ShowsAt (durations_of port calls seen) (get port (observations calls m))
unfolding observations
observations-ShowsAt [] port seen m h = h
observations-ShowsAt ((p, d) ∷ rest) port seen m h =
    observations-ShowsAt rest port _ (observe_port p d m) (observe_port-ShowsAt p port d seen m h)

-- After any observations, the histogram of a port has the sum and the number of the port's durations,
-- and each bucket the number of its durations up to the bound; a port without one was not observed.
pub observations-durations_of :
    (calls : List (String × ℕ)) (port : String)
    → ShowsAt (durations_of port calls []) (get port (observations calls []))
observations-durations_of calls port = observations-ShowsAt calls port [] [] (unfold get in refl)
