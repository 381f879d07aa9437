-- ===== src/Retention/Clusters/Rounds.antt =====
-- The rounds of `closeOverClusters` (src/retention/eligibility.ts): each keeps what may go, drops
-- at least one listing unless it is the last, and so the loop ends with the greatest answer.
use scraplify.Base.{
  ℕ, zero, suc, ◌<◌, ◌≡◌, refl, sym, subst, ◌≢◌, Bool, true, false, some, List, Eq, Bool-cases, inl,
  inr, has, filter, Distinct, has-filter, length-filter_mono, filter-eq_of_length, filter-true,
  arith, length, and_left, and_right,
}
use scraplify.Retention.Clusters.{
  ClusterClosureInput, ClusterClosureResult, round_opportunities, sets_equal, close_rounds,
  close_over_clusters, max_closure_rounds,
}
use scraplify.Retention.Clusters.Closure.{keeps, round_listings-filter, has-round_opportunities}
use scraplify.Retention.Clusters.Greatest.{
  sets_equal_refl, length-eq_of_sets_equal, IsClosed, IsGreatest, passes_parts, some_passes_sound,
  has-of_keeps, keeps_mono, closed-round_opportunities, closed-keeps,
}

module _ {ℓ} {A : Type ℓ} ⦃e : Eq A⦄ (input : ClusterClosureInput A) where
  -- A round's guess is what a test keeps of the candidates.
  abbrev guess : (A → Bool) → List A
  guess q = filter q input.candidates

  abbrev next : (A → Bool) → A → Bool
  next q = keeps input (round_opportunities input (guess q))

  -- A round only takes away.
  abbrev Shrinks : (A → Bool) → Type ℓ
  Shrinks q = (l : A) → has l input.candidates ≡ true → next q l ≡ true → q l ≡ true

  -- Nothing that may be deleted has been dropped.
  abbrev KeepsAll : (A → Bool) → Type ℓ
  KeepsAll q =
      (listing opportunity : A → Bool)
      → IsClosed input listing opportunity
      → (l : A) → listing l ≡ true
      → q l ≡ true

  in_guess :
      (q : A → Bool) (l : A) → has l input.candidates ≡ true → q l ≡ true → has l (guess q) ≡ true
  in_guess q l m k = rw has-filter (ground arith)

  guess-next-le :
      (q : A → Bool) → Shrinks q → (l : A) → has l (guess (next q)) ≡ true → has l (guess q) ≡ true
  guess-next-le q s l m =
      let both = rw has-filter at m in
      in_guess q l (and_left _ _ both) (s l (and_left _ _ both) (and_right _ _ both))

  Shrinks-next : (q : A → Bool) → Shrinks q → Shrinks (next q)
  Shrinks-next q s l m k = keeps_mono input (guess (next q)) (guess q) (guess-next-le q s) l k

  KeepsAll-next : (q : A → Bool) → KeepsAll q → KeepsAll (next q)
  KeepsAll-next q h listing opportunity c l m =
      closed-keeps input (guess q) listing opportunity c
        (λ x k. in_guess q x (c.candidate x k) (h listing opportunity c x k)) l m

  -- The answer of a round that changes nothing.
  settled : (q : A → Bool) → ClusterClosureResult A
  settled q = record {
    opportunities = round_opportunities input (guess q);
    listings = guess (next q);
  }

  settled-IsGreatest :
      (q : A → Bool) → KeepsAll q → guess (next q) ≡ guess q → IsGreatest input (settled q)
  unfolding settled
  settled-IsGreatest q h same = record {
    closed = record {
      candidate = λ l m. and_left _ _ (rw has-filter at m);
      whole_listing = λ l o m k.
          has-of_keeps input (round_opportunities input (guess q)) l o
            (and_right _ _ (rw has-filter at m)) k;
      whole_opportunity = λ o m.
          let (ms, listed, passes) =
            some_passes_sound input (guess q) o input.opportunity_members
              (rw has-round_opportunities at m) in
          let (free, busy, whole) = passes_parts input (guess q) o ms passes in
          (ms, listed, free, busy, λ l k. subst (λ xs. has l xs ≡ true) (sym same) (whole l k));
    };
    listings_greatest = λ listing opportunity c l m.
        in_guess (next q) l (c.candidate l m) (KeepsAll-next q h listing opportunity c l m);
    opportunities_greatest = λ listing opportunity c o m.
        closed-round_opportunities input (guess q) listing opportunity c
          (λ x k. in_guess q x (c.candidate x k) (h listing opportunity c x k)) o m;
  }

  guess-same :
      (q : A → Bool)
      → Shrinks q
      → length (guess (next q)) ≡ length (guess q)
      → guess (next q) ≡ guess q
  guess-same q s e = filter-eq_of_length (next q) q input.candidates s e

  -- A round that is not the last drops a listing.
  guess-next-lt :
      (q : A → Bool)
      → Shrinks q
      → sets_equal (guess (next q)) (guess q) ≡ false
      → length (guess (next q)) < length (guess q)
  guess-next-lt q s f =
      let le = length-filter_mono (next q) q input.candidates s in
      let differ : length (guess (next q)) ≢ length (guess q) = λ n.
        let equal =
          subst (λ xs. sets_equal (guess (next q)) xs ≡ true) (guess-same q s n)
            (sets_equal_refl (guess (next q))) in
        cc in
      omega arith

  close_rounds-IsGreatest :
      Distinct input.candidates
      → (fuel : ℕ) (q : A → Bool) → Shrinks q
      → KeepsAll q
      → length (guess q) < fuel
      → (r : ClusterClosureResult A) × (close_rounds input fuel (guess q) ≡ some r)
        × IsGreatest input r
  unfolding close_rounds settled
  close_rounds-IsGreatest d zero q s h lt = elim lt [ ]
  close_rounds-IsGreatest d (suc fuel) q s h lt =
      elim (Bool-cases (sets_equal (guess (next q)) (guess q))) [
        | inl same ↦ (
          settled q,
          rw (round_listings-filter input (guess q) d) (rw same),
          settled-IsGreatest q h (guess-same q s (length-eq_of_sets_equal _ _ same)),
        )
        | inr other ↦
            let lt' = guess-next-lt q s other in
            let (r, found, greatest) =
              close_rounds-IsGreatest d fuel (next q) (Shrinks-next q s) (KeepsAll-next q h)
                (omega arith) in
            (r, rw (round_listings-filter input (guess q) d) (rw other found), greatest)
      ]

-- When the candidates are listed once each and there are fewer than 10,000 of them, the closure
-- never reaches its `throw`: it returns a result, which is closed (no listing without every
-- opportunity it was ever in, no opportunity with user data or with a member that stays) and
-- holds every listing and every opportunity of any other closed choice.
pub close_over_clusters-IsGreatest {ℓ} :
    {A : Type ℓ} ⦃e : Eq A⦄ (input : ClusterClosureInput A)
    → Distinct input.candidates
    → length input.candidates < max_closure_rounds
    → (r : ClusterClosureResult A) × (close_over_clusters input ≡ some r) × IsGreatest input r
unfolding close_over_clusters
close_over_clusters-IsGreatest input d lt =
    let all_of_them = filter-true input.candidates in
    let (r, found, greatest) =
      close_rounds-IsGreatest input d max_closure_rounds (λ l. true) (λ l m k. refl)
        (λ listing opportunity c l m. refl) (rw all_of_them lt) in
    (r, subst (λ xs. close_rounds input max_closure_rounds xs ≡ some r) all_of_them found, greatest)
