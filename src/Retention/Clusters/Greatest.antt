-- ===== src/Retention/Clusters/Greatest.antt =====
-- The closure of src/retention/eligibility.ts ends, and its answer is the greatest set of
-- opportunities and listings that may go together.
use scraplify.Base.{
  ◌≡◌, Bool, true, false, ◌&&◌, List, [], ◌∷◌, Eq, ◌==◌, Bool-cases, inl, inr, eq_of_beq, beq_refl,
  has, has-of_all, all-of_has, arith, length, nat_beq_iff,
}
use mathlib.Core.List.{Memᴰ}
use scraplify.Retention.Clusters.{
  ClusterClosureInput, ClusterClosureResult, is_empty, is_deletable_opportunity, opportunities_of,
  round_opportunities, sets_equal,
}
use scraplify.Retention.Clusters.Closure.{some_passes, keeps, has-round_opportunities}

pub sets_equal_refl {ℓ} : {A : Type ℓ} ⦃e : Eq A⦄ (a : List A) → sets_equal a a ≡ true
unfolding sets_equal
sets_equal_refl a =
    ground (arith, all-of_has (λ v. has v a) a (λ x m. m), nat_beq_iff (length a) (length a))

pub length-eq_of_sets_equal {ℓ} :
    {A : Type ℓ} ⦃e : Eq A⦄ (a b : List A) → sets_equal a b ≡ true → length a ≡ length b
unfolding sets_equal
length-eq_of_sets_equal a b h = ground arith

module _ {ℓ} {A : Type ℓ} ⦃e : Eq A⦄ (input : ClusterClosureInput A) where
  -- A choice of listings and opportunities that may be deleted together: no listing goes without
  -- every opportunity that it ever belonged to, and no opportunity without all its members.
  pub record IsClosed (listing opportunity : A → Bool) : Type ℓ where
    pub candidate : (l : A) → listing l ≡ true → has l input.candidates ≡ true
    pub whole_listing :
        (l o : A)
        → listing l ≡ true
        → has o (opportunities_of input l) ≡ true
        → opportunity o ≡ true
    pub whole_opportunity :
        (o : A)
        → opportunity o ≡ true
        → (members : List A) × Memᴰ (o, members) input.opportunity_members
          × (has o input.user_data ≡ false)
          × (is_empty members ≡ false)
          × ((l : A) → has l members ≡ true → listing l ≡ true)

  -- The greatest such choice, as the closure's result.
  pub record IsGreatest (r : ClusterClosureResult A) : Type ℓ where
    pub closed : IsClosed (λ l. has l r.listings) (λ o. has o r.opportunities)
    pub listings_greatest :
        (listing opportunity : A → Bool)
        → IsClosed listing opportunity
        → (l : A) → listing l ≡ true
        → has l r.listings ≡ true
    pub opportunities_greatest :
        (listing opportunity : A → Bool)
        → IsClosed listing opportunity
        → (o : A) → opportunity o ≡ true
        → has o r.opportunities ≡ true

  pub passes_parts :
      (d : List A) (o : A) (members : List A)
      → is_deletable_opportunity input d o members ≡ true
      → (has o input.user_data ≡ false)
        × (is_empty members ≡ false)
        × ((l : A) → has l members ≡ true → has l d ≡ true)
  passes_parts d o members h =
      (ground arith, ground arith, λ l m. has-of_all (λ x. has x d) members l (ground arith) m)

  passes_of_parts :
      (d : List A) (o : A) (members : List A)
      → has o input.user_data ≡ false
      → is_empty members ≡ false
      → ((l : A) → has l members ≡ true → has l d ≡ true)
      → is_deletable_opportunity input d o members ≡ true
  passes_of_parts d o members u n h =
      let every = all-of_has (λ x. has x d) members h in ground arith

  pub some_passes_sound :
      (d : List A) (x : A) (entries : List (A × List A))
      → some_passes input d x entries ≡ true
      → (members : List A) × Memᴰ (x, members) entries
        × (is_deletable_opportunity input d x members ≡ true)
  some_passes_sound d x [] h = cc
  some_passes_sound d x ((o, members) ∷ rest) h =
      elim (Bool-cases (x == o && is_deletable_opportunity input d o members)) [
        | inl here ↦
            let same = eq_of_beq x o (ground arith) in
            (members, Memᴰ.head (rw same), rw same (ground arith))
        | inr not_here ↦
            let (ms, listed, passes) = some_passes_sound d x rest (ground arith) in
            (ms, Memᴰ.tail listed, passes)
      ]

  some_passes_complete :
      (d : List A) (x : A) (members : List A) (entries : List (A × List A))
      → Memᴰ (x, members) entries
      → is_deletable_opportunity input d x members ≡ true
      → some_passes input d x entries ≡ true
  some_passes_complete d x members [] m h = elim m [ ]
  some_passes_complete d x members ((o, ms) ∷ rest) (Memᴰ.head p) h = ground (arith, beq_refl x)
  some_passes_complete d x members ((o, ms) ∷ rest) (Memᴰ.tail m) h =
      ground (arith, some_passes_complete d x members rest m h)

  pub has-of_keeps :
      (opportunities : List A) (l o : A)
      → keeps input opportunities l ≡ true
      → has o (opportunities_of input l) ≡ true
      → has o opportunities ≡ true
  has-of_keeps opportunities l o h m =
      has-of_all (λ x. has x opportunities) (opportunities_of input l) o h m

  -- Fewer deletable listings leave fewer deletable opportunities.
  round_opportunities_mono :
      (d d' : List A)
      → ((l : A) → has l d ≡ true → has l d' ≡ true)
      → (o : A) → has o (round_opportunities input d) ≡ true
      → has o (round_opportunities input d') ≡ true
  round_opportunities_mono d d' h o m =
      let (ms, listed, passes) =
        some_passes_sound d o input.opportunity_members (rw has-round_opportunities at m) in
      let (free, busy, whole) = passes_parts d o ms passes in
      rw has-round_opportunities (
        some_passes_complete d' o ms input.opportunity_members listed
          (passes_of_parts d' o ms free busy (λ l k. h l (whole l k))))

  pub keeps_mono :
      (d d' : List A)
      → ((l : A) → has l d ≡ true → has l d' ≡ true)
      → (l : A) → keeps input (round_opportunities input d) l ≡ true
      → keeps input (round_opportunities input d') l ≡ true
  keeps_mono d d' h l k =
      all-of_has (λ o. has o (round_opportunities input d')) (opportunities_of input l)
        (λ o m.
          round_opportunities_mono d d' h o (has-of_keeps (round_opportunities input d) l o k m))

  -- Whatever may be deleted together survives a round.
  pub closed-round_opportunities :
      (d : List A) (listing opportunity : A → Bool)
      → IsClosed listing opportunity
      → ((l : A) → listing l ≡ true → has l d ≡ true)
      → (o : A) → opportunity o ≡ true
      → has o (round_opportunities input d) ≡ true
  closed-round_opportunities d listing opportunity c h o m =
      let (ms, listed, free, busy, whole) = c.whole_opportunity o m in
      rw has-round_opportunities (
        some_passes_complete d o ms input.opportunity_members listed
          (passes_of_parts d o ms free busy (λ l k. h l (whole l k))))

  pub closed-keeps :
      (d : List A) (listing opportunity : A → Bool)
      → IsClosed listing opportunity
      → ((l : A) → listing l ≡ true → has l d ≡ true)
      → (l : A) → listing l ≡ true
      → keeps input (round_opportunities input d) l ≡ true
  closed-keeps d listing opportunity c h l m =
      all-of_has (λ o. has o (round_opportunities input d)) (opportunities_of input l)
        (λ o k. closed-round_opportunities d listing opportunity c h o (c.whole_listing l o m k))
