-- ===== src/Outreach/Drafts/Outcomes.antt =====
-- What the transactions of src/outreach/draft-store.ts that returned had checked and what they left.
use scraplify.Base.{
  ◌≡◌, refl, true, Option, none, some, ◌⊎◌, ◌==◌, nat_eq, list_eq, option_eq, Text, eq_of_beq,
  arith,
}
use scraplify.Outreach.Model.{
  OutreachDraft, edited, draft_edited, OutreachApproval, Store, BoundContent, bound_content,
  ListingRevision,
}
use scraplify.Outreach.Transactions.{
  OutreachError, Transaction, done, find_listing, audit, Locked, refused, locked, lock_draft,
  invalidate_live_approval, bound_inputs_staleness, update_draft,
}
use scraplify.Outreach.Creation.{
  CreateDraftInput, create_draft, create_for_listing, insert_draft, find_current_revision,
}
use scraplify.Outreach.Drafts.{
  EditDraftInput, ApproveDraftInput, edit_draft, edit_locked, approve_locked, approve_with,
  unless_stale, find_live, with_text,
}

module _ (content_hash : BoundContent → Text) where
  abbrev pub changed_store : EditDraftInput → Store → OutreachDraft → Store
  changed_store i s draft =
      audit draft.id
        (draft_edited (content_hash (bound_content draft))
          (content_hash (bound_content (with_text content_hash i draft))))
        i.now
        (invalidate_live_approval draft.id edited i.now
          (update_draft draft.id (with_text content_hash i) s))

  -- What a transaction that returned was: the tables that it left.
  create_for_listing-inserted :
      (new_id : Text) (i : CreateDraftInput) (r : Option ListingRevision) (s t : Store)
      (draft : OutreachDraft)
      → create_for_listing content_hash new_id i r s ≡ done draft t
      → insert_draft content_hash draft s ≡ done draft t
  unfolding create_for_listing
  create_for_listing-inserted new_id i none s t draft e = cc
  create_for_listing-inserted new_id i (some r) s t draft e = ground arith

  pub create_draft-inserted :
      (new_id : Text) (i : CreateDraftInput) (s t : Store) (draft : OutreachDraft)
      → create_draft content_hash new_id i s ≡ done draft t
      → insert_draft content_hash draft s ≡ done draft t
  unfolding create_draft
  create_draft-inserted new_id i s t draft e = ground (
    arith,
    create_for_listing-inserted new_id i
        (find_current_revision (find_listing i.source_listing_id s) s) s t draft,
  )

  pub edit_locked-changed :
      (i : EditDraftInput) (s t : Store) (draft after : OutreachDraft)
      → edit_locked content_hash i s (locked draft) ≡ done after t
      → (s ≡ t) ⊎ (changed_store i s draft ≡ t)
  unfolding edit_locked
  edit_locked-changed i s t draft after e = ground arith

  pub edit_draft-locked :
      (i : EditDraftInput) (s t : Store) (after : OutreachDraft)
      → edit_draft content_hash i s ≡ done after t
      → edit_locked content_hash i s (lock_draft i.draft_id s) ≡ done after t
  unfolding edit_draft
  edit_draft-locked i s t after e = ground arith

  unless_stale-done :
      (tr : Transaction OutreachApproval) (e : Option OutreachError) (a : OutreachApproval)
      (t : Store)
      → unless_stale content_hash tr e ≡ done a t
      → (e ≡ none) × (tr ≡ done a t)
  unless_stale-done tr none a t h = (refl, h)
  unless_stale-done tr (some e) a t h = cc

  -- What an approval that was given checked.
  pub approve_locked-checked :
      (new_id : Text) (i : ApproveDraftInput) (s t : Store) (draft : OutreachDraft)
      (a : OutreachApproval)
      → approve_locked content_hash new_id i s (locked draft) ≡ done a t
      → (draft.subject ≡ i.visible_subject)
        × (draft.body ≡ i.visible_body)
        × (bound_inputs_staleness draft s ≡ none)
        × (approve_with content_hash new_id draft i.now s (find_live content_hash draft.id s)
            ≡ done a t)
  unfolding approve_locked
  approve_locked-checked new_id i s t draft a e =
      let subject : (draft.subject == i.visible_subject) ≡ true = ground arith in
      let body : (draft.body == i.visible_body) ≡ true = ground arith in
      let rest : unless_stale content_hash
            (approve_with content_hash new_id draft i.now s (find_live content_hash draft.id s))
            (bound_inputs_staleness draft s)
          ≡ done a t =
        ground arith in
      let (fresh, given) = unless_stale-done _ _ a t rest in
      (eq_of_beq _ _ subject, eq_of_beq _ _ body, fresh, given)

  pub locked-of_approved :
      (new_id : Text) (i : ApproveDraftInput) (s t : Store) (l : Locked) (a : OutreachApproval)
      → approve_locked content_hash new_id i s l ≡ done a t
      → (draft : OutreachDraft) × (l ≡ locked draft)
  unfolding approve_locked
  locked-of_approved new_id i s t (refused e) a h = cc
  locked-of_approved new_id i s t (locked draft) a h = (draft, refl)

  pub locked-of_edited :
      (i : EditDraftInput) (s t : Store) (l : Locked) (after : OutreachDraft)
      → edit_locked content_hash i s l ≡ done after t
      → (draft : OutreachDraft) × (l ≡ locked draft)
  unfolding edit_locked
  locked-of_edited i s t (refused e) after h = cc
  locked-of_edited i s t (locked draft) after h = (draft, refl)
