-- ===== src/Outreach/Drafts/Binding.antt =====
-- What an approval stands for, however the tables change after it (src/outreach/draft-store.ts).
use scraplify.Base.{
  ℕ, ◌≡◌, ◌≢◌, refl, sym, ap, ◌∙◌, subst, Bool, true, Option, none, some, List, [], ◌∷◌, ◌⊎◌, inl,
  inr, ◌==◌, nat_eq, list_eq, option_eq, All, Text, eq_of_beq, beq_refl, Bool-cases, and_left,
  and_right,
}
use scraplify.Outreach.Model.{OutreachDraft, OutreachApproval, Store, BoundContent, bound_content}
use scraplify.Outreach.Content.{canonical, content_hash}
use scraplify.Outreach.Content.Canonical.{canonical-injective}
use scraplify.Outreach.Transactions.{done, find, is_live_of, find_draft}
use scraplify.Outreach.Drafts.{ApproveDraftInput, approve_draft, approve_with, find_live}
use scraplify.Outreach.Drafts.Rows.{lock_draft-found, find-true, some-eq, none_of_is_none}
use scraplify.Outreach.Drafts.Outcomes.{locked-of_approved, approve_locked-checked}
use scraplify.Outreach.Drafts.Approvals.{BoundTo, IsSound}
use scraplify.Outreach.Drafts.Steps.{Steps, Steps-IsSound, Step-IsSound, approved}

All-find {ℓ κ} :
    {A : Type ℓ} (P : A → Type κ) (p : A → Bool) (xs : List A) (x : A)
    → All P xs
    → find p xs ≡ some x
    → P x
All-find P p [] x h e = cc
All-find P p (y ∷ xs) x (here, later) e = elim (Bool-cases (p y)) [
  | inl k ↦ subst P (some-eq y x (rw k at e)) here
  | inr k ↦ All-find P p xs x later (rw k at e)
]

done-value : {A : Type 0} (x y : A) (s t : Store) → done x s ≡ done y t → x ≡ y
done-value x y s t e = cc

module _ (content_hash : BoundContent → Text) where
  hash-of_done :
      (x a : OutreachApproval) (s t : Store) (h : Text)
      → done x s ≡ done a t
      → x.content_hash ≡ h
      → a.content_hash ≡ h
  hash-of_done x a s t h e k =
      subst (λ (b : OutreachApproval). b.content_hash ≡ h) (done-value x a s t e) k

  approve_with-hash :
      (new_id : Text) (draft : OutreachDraft) (now : ℕ) (s t : Store) (a : OutreachApproval)
      (live : Option OutreachApproval)
      → approve_with content_hash new_id draft now s live ≡ done a t
      → a.content_hash ≡ content_hash (bound_content draft)
  approve_with-hash new_id draft now s t a none e = hash-of_done _ a _ t _ e refl
  approve_with-hash new_id draft now s t a (some live) e =
      elim (Bool-cases (live.content_hash == content_hash (bound_content draft))) [
        | inl same ↦ hash-of_done live a s t _ (rw same at e) (eq_of_beq _ _ same)
        | inr other ↦ hash-of_done _ a _ t _ (rw other at e) refl
      ]

  pub live-hash :
      (s : Store) (id : Text) (a : OutreachApproval) (d : OutreachDraft)
      → IsSound content_hash s
      → find_live content_hash id s ≡ some a
      → find_draft id s ≡ some d
      → a.content_hash ≡ content_hash (bound_content d)
  live-hash s id a d (one, bound) live found =
      let is_live : is_live_of id a ≡ true = find-true (is_live_of id) s.approvals a live in
      let same : a.draft_id ≡ id = eq_of_beq a.draft_id id (and_left _ _ is_live) in
      let (r, found_r, kept, hash) =
        All-find (BoundTo content_hash s.drafts) (is_live_of id) s.approvals a bound live
          (none_of_is_none a.invalidated_at (and_right (a.draft_id == id) _ is_live)) in
      let same_draft : r ≡ d =
        some-eq r d (sym found_r ∙ ap (λ (other : Text). find_draft other s) same ∙ found) in
      hash ∙ ap (λ (x : OutreachDraft). content_hash (bound_content x)) same_draft

  approve_draft-hash :
      (new_id : Text) (i : ApproveDraftInput) (s t u : Store) (a : OutreachApproval)
      (d : OutreachDraft)
      → IsSound content_hash s
      → approve_draft content_hash new_id i s ≡ done a t
      → Steps content_hash t u
      → find_live content_hash i.draft_id u ≡ some a
      → find_draft i.draft_id u ≡ some d
      → (before : OutreachDraft) × (find_draft i.draft_id s ≡ some before)
        × (before.subject ≡ i.visible_subject)
        × (before.body ≡ i.visible_body)
        × (content_hash (bound_content d) ≡ content_hash (bound_content before))
  unfolding approve_draft
  approve_draft-hash new_id i s t u a d h e steps live found =
      let (before, k) = locked-of_approved content_hash new_id i s t _ a e in
      let (found_before, kept, same) = lock_draft-found i.draft_id s before k in
      let (subject, body, fresh, given) =
        approve_locked-checked content_hash new_id i s t before a (rw k at e) in
      let sound : IsSound content_hash u =
        Steps-IsSound content_hash t u steps
          (Step-IsSound content_hash s t (approved new_id i e) h) in
      (
        before,
        found_before,
        subject,
        body,
        sym (live-hash u i.draft_id a d sound live found)
            ∙ approve_with-hash new_id before i.now s t a _ given,
      )

-- Two different texts with one hash.
abbrev pub IsCollision : (Text → Text) → Text → Text → Type 0
IsCollision sha256 x y = (x ≢ y) × (sha256 x ≡ sha256 y)

same_or_IsCollision :
    (sha256 : Text → Text) (b c : BoundContent)
    → content_hash sha256 b ≡ content_hash sha256 c
    → (b ≡ c) ⊎ IsCollision sha256 (canonical b) (canonical c)
unfolding content_hash
same_or_IsCollision sha256 b c e = elim (Bool-cases (canonical b == canonical c)) [
  | inl same ↦ inl (canonical-injective b c (eq_of_beq _ _ same))
  | inr other ↦ inr (
    (λ same.
        let yes_eq : (canonical b == canonical c) ≡ true =
          subst (λ (t : Text). (canonical b == t) ≡ true) same (beq_refl (canonical b)) in
        cc),
    e,
  )
]

-- From tables where the invariant of the approvals holds: an approval is given only for the subject
-- and the body that were shown, and as long as it is the live one of its draft, whatever was done
-- since, the draft has exactly the content that it had when the approval was given, its recipient,
-- profile and pinned versions included, or SHA-256 gives the canonical texts of the two different
-- contents one hash.
pub approve_draft-binds :
    (sha256 : Text → Text) (new_id : Text) (i : ApproveDraftInput) (s t u : Store)
    (a : OutreachApproval) (d : OutreachDraft)
    → IsSound (content_hash sha256) s
    → approve_draft (content_hash sha256) new_id i s ≡ done a t
    → Steps (content_hash sha256) t u
    → find_live (content_hash sha256) i.draft_id u ≡ some a
    → find_draft i.draft_id u ≡ some d
    → (before : OutreachDraft) × (find_draft i.draft_id s ≡ some before)
      × (before.subject ≡ i.visible_subject)
      × (before.body ≡ i.visible_body)
      × ((bound_content d ≡ bound_content before)
          ⊎ IsCollision sha256 (canonical (bound_content d)) (canonical (bound_content before)))
approve_draft-binds sha256 new_id i s t u a d h e steps live found =
    let (before, found_before, subject, body, same) =
      approve_draft-hash (content_hash sha256) new_id i s t u a d h e steps live found in
    (
      before,
      found_before,
      subject,
      body,
      same_or_IsCollision sha256 (bound_content d) (bound_content before) same,
    )
