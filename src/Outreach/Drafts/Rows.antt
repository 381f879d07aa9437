-- ===== src/Outreach/Drafts/Rows.antt =====
-- The rows that the operations of src/outreach/draft-store.ts find, lock and change.
use scraplify.Base.{
  ℕ, ◌≤◌, ◌≡◌, refl, sym, ap, ◌∙◌, subst, Bool, true, false, ◌&&◌, Option, none, some, List, [],
  ◌∷◌, ◌++◌, inl, inr, ◌==◌, nat_eq, list_eq, option_eq, if◌then◌else◌, length, filter, map,
  is_none, All, Text, eq_of_beq, Bool-cases, Option-cases, arith,
}
use scraplify.Outreach.Model.{OutreachDraft, Reason, OutreachApproval, Store}
use scraplify.Outreach.Transactions.{
  find, locked, lock_draft, unless_deleted, is_live_of, invalidate, audit_invalidated, find_draft,
}

module _ {ℓ} {A : Type ℓ} where
  pub find-append :
      (p : A → Bool) (xs ys : List A) (x : A) → find p xs ≡ some x → find p (xs ++ ys) ≡ some x
  find-append p [] ys x h = cc
  find-append p (y ∷ xs) ys x h = ground (arith, find-append p xs ys x)

  pub find-append_none :
      (p : A → Bool) (xs : List A) (y : A)
      → find p xs ≡ none
      → p y ≡ true
      → find p (xs ++ y ∷ []) ≡ some y
  find-append_none p [] y h k = rw k refl
  find-append_none p (x ∷ xs) y h k = ground (arith, find-append_none p xs y)

  pub find-true : (p : A → Bool) (xs : List A) (x : A) → find p xs ≡ some x → p x ≡ true
  find-true p [] x h = cc
  find-true p (y ∷ xs) x h = ground (arith, find-true p xs x)

  pub filter-find-none : (p : A → Bool) (xs : List A) → find p xs ≡ none → filter p xs ≡ []
  filter-find-none p [] h = refl
  filter-find-none p (y ∷ xs) h = ground (arith, filter-find-none p xs)

  pub find-filter_nil : (p : A → Bool) (xs : List A) → filter p xs ≡ [] → find p xs ≡ none
  find-filter_nil p [] h = refl
  find-filter_nil p (y ∷ xs) h = ground (arith, find-filter_nil p xs)

  pub filter-append :
      (p : A → Bool) (xs ys : List A) → filter p (xs ++ ys) ≡ filter p xs ++ filter p ys
  filter-append p [] ys = refl
  filter-append p (x ∷ xs) ys = ground (arith, filter-append p xs ys)

  pub All-map {κ μ} :
      (P : A → Type κ) (Q : A → Type μ) (f : A → A) (xs : List A)
      → ((x : A) → P x → Q (f x))
      → All P xs
      → All Q (map f xs)
  All-map P Q f [] k h = tt
  All-map P Q f (x ∷ xs) k (here, later) = (k x here, All-map P Q f xs k later)

  pub All-mono {κ μ} :
      (P : A → Type κ) (Q : A → Type μ) (xs : List A) → ((x : A) → P x → Q x) → All P xs → All Q xs
  All-mono P Q [] k h = tt
  All-mono P Q (x ∷ xs) k (here, later) = (k x here, All-mono P Q xs k later)

  pub All-append {κ} :
      (P : A → Type κ) (xs : List A) (y : A) → All P xs → P y → All P (xs ++ y ∷ [])
  All-append P [] y h k = (k, tt)
  All-append P (x ∷ xs) y (here, later) k = (here, All-append P xs y later k)

pub some-eq {ℓ} : {A : Type ℓ} (x y : A) → some x ≡ some y → x ≡ y
some-eq x y h = cc

locked-eq : (d draft : OutreachDraft) → locked d ≡ locked draft → d ≡ draft
locked-eq d draft h = cc

pub none_of_is_none {ℓ} : {A : Type ℓ} (o : Option A) → is_none o ≡ true → o ≡ none
none_of_is_none none h = refl
none_of_is_none (some x) h = cc

unless_deleted-locked :
    (d draft : OutreachDraft)
    → unless_deleted (some d) ≡ locked draft
    → (d ≡ draft) × (draft.deleted_at ≡ none)
unless_deleted-locked d draft h = elim (Bool-cases (is_none d.deleted_at)) [
  | inl e ↦
      let same : d ≡ draft = locked-eq d draft (rw e at h) in
      (
        same,
        subst (λ (r : OutreachDraft). r.deleted_at ≡ none) same (none_of_is_none d.deleted_at e),
      )
  | inr e ↦ absurd (cc (rw e at h))
]

pub lock_draft-found :
    (id : Text) (s : Store) (draft : OutreachDraft)
    → lock_draft id s ≡ locked draft
    → (find_draft id s ≡ some draft) × (draft.deleted_at ≡ none) × (draft.id ≡ id)
unfolding lock_draft
lock_draft-found id s draft h = elim (Option-cases (find_draft id s)) [
  | inl e ↦ absurd (cc (rw e at h))
  | inr (d, e) ↦
      let (same, kept) = unless_deleted-locked d draft (rw e at h) in
      let found : find_draft id s ≡ some draft = e ∙ ap some same in
      (
        found,
        kept,
        eq_of_beq draft.id id (find-true (λ (r : OutreachDraft). r.id == id) s.drafts draft found),
      )
]

pub audit_invalidated-keeps :
    (id : Text) (reason : Reason) (at : ℕ) (rows : List OutreachApproval) (s : Store)
    → ((audit_invalidated id reason at rows s).drafts ≡ s.drafts)
      × ((audit_invalidated id reason at rows s).approvals ≡ s.approvals)
audit_invalidated-keeps id reason at [] s = (refl, refl)
audit_invalidated-keeps id reason at (a ∷ rows) s = audit_invalidated-keeps id reason at rows _

pub invalidate-not_live :
    (id : Text) (reason : Reason) (at : ℕ) (rows : List OutreachApproval)
    → filter (is_live_of id) (map (invalidate id reason at) rows) ≡ []
invalidate-not_live id reason at [] = refl
invalidate-not_live id reason at (a ∷ rows) = elim (Bool-cases (is_live_of id a)) [
  | inl e ↦ ground (arith, invalidate-not_live id reason at rows)
  | inr e ↦ rw (e, e) (invalidate-not_live id reason at rows)
]

pub length-filter-invalidate :
    (id other : Text) (reason : Reason) (at : ℕ) (rows : List OutreachApproval)
    → length (filter (is_live_of other) (map (invalidate id reason at) rows))
      ≤ length (filter (is_live_of other) rows)
length-filter-invalidate id other reason at [] = omega arith
length-filter-invalidate id other reason at (a ∷ rows) =
    ground (arith, length-filter-invalidate id other reason at rows)

module _ (id : Text) (set : OutreachDraft → OutreachDraft)
    (keeps_id : (d : OutreachDraft) → (set d).id ≡ d.id) where
  abbrev pub set_draft : OutreachDraft → OutreachDraft
  set_draft d = if d.id == id then set d else d

  set_draft-id : (d : OutreachDraft) → (set_draft d).id ≡ d.id
  set_draft-id d = elim (Bool-cases (d.id == id)) [ inl e ↦ rw e (keeps_id d) | inr e ↦ rw e refl ]

  pub find-set_draft :
      (other : Text) (drafts : List OutreachDraft) (d : OutreachDraft)
      → find (λ (r : OutreachDraft). r.id == other) drafts ≡ some d
      → find (λ (r : OutreachDraft). r.id == other) (map set_draft drafts) ≡ some (set_draft d)
  find-set_draft other [] d h = cc
  find-set_draft other (r ∷ drafts) d h = elim (Bool-cases (r.id == other)) [
    | inl e ↦
        let same : r ≡ d = some-eq r d (rw e at h) in
        rw (set_draft-id r, e) (ap (λ (x : OutreachDraft). some (set_draft x)) same)
    | inr e ↦ rw (set_draft-id r, e) (find-set_draft other drafts d (rw e at h))
  ]

  pub set_draft-other : (d : OutreachDraft) → (d.id == id) ≡ false → set_draft d ≡ d
  set_draft-other d e = rw e refl

and_true-false : (a b : Bool) → (a && b) ≡ false → b ≡ true → a ≡ false
and_true-false true b h k = sym k ∙ h
and_true-false false b h k = refl

pub not_live-other :
    (id : Text) (a : OutreachApproval)
    → is_live_of id a ≡ false
    → a.invalidated_at ≡ none
    → (a.draft_id == id) ≡ false
not_live-other id a e live = and_true-false _ _ e (ap is_none live)

pub find-draft_id :
    (id : Text) (drafts : List OutreachDraft) (d : OutreachDraft)
    → find (λ (r : OutreachDraft). r.id == id) drafts ≡ some d
    → d.id ≡ id
find-draft_id id drafts d h =
    eq_of_beq d.id id (find-true (λ (r : OutreachDraft). r.id == id) drafts d h)
